-- ===== src/TenantFiles/Handle.antt =====
-- Opening shows the tenant's own file and no other; the wipe leaves nothing of the tenants it names.
use open_troop.Prelude.{
  String, ◌≡◌, refl, inl, inr, false, ◌&&◌, ap, ◌∙◌, Bool, Option, none, some, get_or, List, [],
  ◌∷◌, arith, str_eq, eq_iff, eq_refl, if◌then◌else◌, Bool-cases, any, if-holds,
}
use open_troop.Schema.{migrate, File}
use open_troop.TenantFiles.{
  empty_file, write_file, close_tenant_database, close_other, open_missing, migrate_open,
  open_tenant_database, delete_files, delete_tenant_databases, Device,
}

-- The file of the tenant, or a new one.
abbrev pub file_of : String → Device → File
file_of tenant_id d = get_or (d.files tenant_id) empty_file

-- What opening leaves of the device.
record IsOpened (tenant_id other : String) (d d' : Device) : Type 0 where
  handle : d'.handle ≡ some tenant_id
  file : d'.files tenant_id ≡ some (migrate (file_of tenant_id d))
  others : d'.files other ≡ d.files other

abbrev device : (String → Option File) → Option String → Device
device files handle = record { files = files; handle = handle }

IsOpened-new :
    (tenant_id other : String) (files : String → Option File) (o : Option String)
    → str_eq tenant_id other ≡ false
    → IsOpened tenant_id other
        (device files o)
        (migrate_open (open_missing tenant_id none (device files none)))
unfolding migrate_open open_missing
IsOpened-new tenant_id other files o apart = record {
  handle = refl;
  file = rw (eq_refl tenant_id);
  others = rw apart;
}

IsOpened-again :
    (tenant_id other : String) (files : String → Option File)
    → str_eq tenant_id other ≡ false
    → IsOpened tenant_id other
        (device files (some tenant_id))
        (migrate_open (device files (some tenant_id)))
unfolding migrate_open
IsOpened-again tenant_id other files apart = record {
  handle = refl;
  file = rw (eq_refl tenant_id);
  others = rw apart;
}

IsOpened-at :
    (tenant_id other : String) (files : String → Option File) (o : Option String)
    → str_eq tenant_id other ≡ false
    → IsOpened tenant_id other (device files o) (open_tenant_database tenant_id (device files o))
unfolding open_tenant_database close_other close_tenant_database open_missing
IsOpened-at tenant_id other files none apart = IsOpened-new tenant_id other files none apart
IsOpened-at tenant_id other files (some t) apart = elim (Bool-cases (str_eq t tenant_id)) [
  | inl same ↦
      rw ((eq_iff t tenant_id).0 same, eq_refl tenant_id)
        (IsOpened-again tenant_id other files apart)
  | inr differs ↦ rw differs (IsOpened-new tenant_id other files (some t) apart)
]

-- Opening a tenant's database leaves its handle, and no other, open; its file is there, migrated, from
-- what it held or from nothing; the file of any other tenant is as it was.
pub open_tenant_database_lem :
    (tenant_id other : String) (d : Device)
    → str_eq tenant_id other ≡ false
    → ((open_tenant_database tenant_id d).handle ≡ some tenant_id)
      × ((open_tenant_database tenant_id d).files tenant_id ≡ some (migrate (file_of tenant_id d)))
      × ((open_tenant_database tenant_id d).files other ≡ d.files other)
open_tenant_database_lem tenant_id other d apart =
    let opened = IsOpened-at tenant_id other d.files d.handle apart in
    (opened.handle, opened.file, opened.others)

module _ (removes : String → Bool) where
  files-delete_files :
      (ts : List String) (t : String) (d : Device)
      → (delete_files removes ts d).files t
        ≡ (if any (λ x. str_eq x t) ts && removes t then none else d.files t)
  unfolding delete_files
  files-delete_files [] t d = refl
  files-delete_files (x ∷ ts) t d =
      files-delete_files ts t (if removes x then write_file x none d else d)
      ∙ (elim (Bool-cases (str_eq x t)) [
        | inl same ↦
            let e : removes x ≡ removes t = ap removes ((eq_iff x t).0 same) in
            rw e (elim (Bool-cases (removes t)) [
              | inl gone ↦ rw gone (ground (arith, same))
              | inr kept ↦ rw kept (ground arith)
            ])
        | inr apart ↦ elim (Bool-cases (removes x)) [
          | inl gone ↦ rw gone (ground (arith, apart))
          | inr kept ↦ rw kept (ground (arith, apart))
        ]
      ])

  handle-delete_files :
      (ts : List String) (d : Device) → (delete_files removes ts d).handle ≡ d.handle
  unfolding delete_files
  handle-delete_files [] d = refl
  handle-delete_files (x ∷ ts) d =
      handle-delete_files ts (if removes x then write_file x none d else d)
      ∙ if-holds (λ (e : Device). e.handle ≡ d.handle) (removes x) (write_file x none d) d
          (λ gone. refl) (λ kept. refl)

  -- The wipe closes the open handle and deletes those files of the tenants that it is given that can be
  -- deleted, and of no other tenant.
  pub delete_tenant_databases_lem :
      (tenant_ids : List String) (t : String) (d : Device)
      → ((delete_tenant_databases removes tenant_ids d).handle ≡ none)
        × ((delete_tenant_databases removes tenant_ids d).files t
            ≡ (if any (λ x. str_eq x t) tenant_ids && removes t then none else d.files t))
  unfolding delete_tenant_databases close_tenant_database
  delete_tenant_databases_lem tenant_ids t d = (
    handle-delete_files tenant_ids _,
    files-delete_files tenant_ids t (record d { handle = none }),
  )
