-- ===== src/Reads/Family.antt =====
-- apps/mobile/src/hooks/use-mirror.ts: whom `useMirrorFamily` lists.
use open_troop.Prelude.{
  String, ◌≡◌, refl, sym, ap, ◌∙◌, inl, inr, Bool, true, ◌&&◌, ◌||◌, Option, none, some, get_or,
  List, [], ◌∷◌, map, arith, str_eq, eq_iff, eq_refl, Bool-cases, Option-cases, keep, any, lookup,
  is_keyed, is_keyed-assign_entries,
}
use open_troop.Doc.{Doc}
use open_troop.Db.{members, member_relationships, Db}
use open_troop.Mirror.{list_rows}
use open_troop.Reads.{
  field, is_ward_edge, members_by_id, add_ward, wards_of, mirror_family, CachedSession,
}

abbrev pub names : String → List Doc → Bool
names x = any (λ m. str_eq (field "id" m) x)

abbrev pub has_ward : String → String → List Doc → Bool
has_ward me_id x = any (λ r. is_ward_edge me_id r && str_eq (field "to_member_id" r) x)

abbrev hit : String → Option Doc → Bool
hit = is_keyed (field "id")

hit-lookup :
    (x k : String) (db : Db)
    → hit x (lookup k (members_by_id db)) ≡ (str_eq k x && names x (list_rows members db))
hit-lookup x k db =
    let ms = list_rows members db in
    is_keyed-assign_entries (field "id") x k ms [] ∙ (elim (Bool-cases (str_eq k x)) [
      | inl same ↦
          let e : names k ms ≡ names x ms = ap (λ y. names y ms) ((eq_iff k x).0 same) in
          ground (arith, e)
      | inr other ↦ ground arith
    ])

names-add_ward :
    (x : String) (m : Option Doc) (wards : List Doc)
    → names x (add_ward m wards) ≡ (hit x m || names x wards)
names-add_ward x none wards = refl
names-add_ward x (some m) wards = refl

names-wards_of :
    (x me_id : String) (db : Db) (edges : List Doc)
    → names x
        (wards_of (members_by_id db) (map (field "to_member_id") (keep (is_ward_edge me_id) edges)))
      ≡ (has_ward me_id x edges && names x (list_rows members db))
names-wards_of x me_id db [] = refl
names-wards_of x me_id db (r ∷ edges) = elim (Bool-cases (is_ward_edge me_id r)) [
  | inl ward ↦
      let k = field "to_member_id" r in
      let ids = map (field "to_member_id") (keep (is_ward_edge me_id) edges) in
      rw ward (
        names-add_ward x (lookup k (members_by_id db)) (wards_of (members_by_id db) ids)
        ∙ rw (hit-lookup x k db, names-wards_of x me_id db edges) (ground arith))
  | inr other ↦ rw other (names-wards_of x me_id db edges)
]

names_self :
    (x : String) (member : Doc) (db : Db)
    → str_eq (field "id" (get_or (lookup (field "id" member) (members_by_id db)) member)) x
      ≡ str_eq (field "id" member) x
names_self x member db =
    let me_id = field "id" member in
    elim (Option-cases (lookup me_id (members_by_id db))) [
      | inl absent ↦ rw absent refl
      | inr (m, found) ↦
          let there : (str_eq me_id (field "id" m) && names (field "id" m) (list_rows members db))
              ≡ true =
            sym (hit-lookup (field "id" m) me_id db)
            ∙ (ap (hit (field "id" m)) found ∙ eq_refl (field "id" m)) in
          let same : str_eq me_id (field "id" m) ≡ true = ground (arith, there) in
          rw found (ap (λ k. str_eq k x) (sym ((eq_iff me_id (field "id" m)).0 same)))
    ]

-- The family of a session with a member names exactly the member and those to whom an edge of the
-- mirror leads from it as their parent or guardian, if the mirror has them as members; this is with
-- any rows, also if members, edges and ids are repeated or missing.
pub mirror_family_lem :
    (x : String) (session : CachedSession) (member : Doc) (db : Db)
    → session.member ≡ some member
    → names x (mirror_family (some session) db) ≡ (
        str_eq (field "id" member) x
        || (has_ward (field "id" member) x (list_rows member_relationships db)
            && names x (list_rows members db)))
unfolding mirror_family
mirror_family_lem x session member db signed_in =
    let me_id = field "id" member in
    rw signed_in (
      rw (names_self x member db, names-wards_of x me_id db (list_rows member_relationships db))
        refl)
