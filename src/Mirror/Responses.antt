-- ===== src/Mirror/Responses.antt =====
-- A response row that is written straight into the mirror.
use open_troop.Prelude.{
  ℕ, String, ◌≡◌, refl, ap, ◌∙◌, Option, none, some, get_or, str_eq, eq_refl, if◌then◌else◌,
}
use open_troop.Doc.{Doc}
use open_troop.Db.{entity_name, SyncEntity, MirrorRow, Db}
use open_troop.Db.Rows.{find_row, find_row-upsert_row}
use open_troop.Mirror.{response_row, upsert_response_row}

-- The row that is there keeps the cursor columns that the pull loop wrote; a new one has the lowest.
abbrev pub kept_columns : Option MirrorRow → ℕ × ℕ
kept_columns none = (0, 0)
kept_columns (some r) = (r.sync_seq, r.seen_epoch)

columns :
    (id now : String) (updated_at : Option String) (doc : Doc) (old : Option MirrorRow)
    → response_row id updated_at doc now old ≡ record {
      id = id;
      sync_seq = (kept_columns old).0;
      updated_at = get_or updated_at now;
      seen_epoch = (kept_columns old).1;
      doc = doc;
    }
unfolding response_row
columns id now updated_at doc none = refl
columns id now updated_at doc (some r) = refl

-- After the write, the row of the response's id has the response's document, with the sequence number and
-- the epoch that it had, or 0 if it is new; every other row is as it was.
pub upsert_response_row_lem :
    (e : SyncEntity) (id j now : String) (updated_at : Option String) (doc : Doc) (db : Db)
    → find_row j ((upsert_response_row e id updated_at doc now db).mirror e) ≡ (
        if str_eq id j
        then some (record {
          id = id;
          sync_seq = (kept_columns (find_row id (db.mirror e))).0;
          updated_at = get_or updated_at now;
          seen_epoch = (kept_columns (find_row id (db.mirror e))).1;
          doc = doc;
        })
        else find_row j (db.mirror e))
unfolding upsert_response_row
upsert_response_row_lem e id j now updated_at doc db =
    let old = find_row id (db.mirror e) in
    rw (eq_refl (entity_name e)) (
      find_row-upsert_row (response_row id updated_at doc now old) j (db.mirror e)
      ∙ ap (λ (r : MirrorRow). if str_eq id j then some r else find_row j (db.mirror e))
          (columns id now updated_at doc old))

pub upsert_response_row-keeps :
    (e : SyncEntity) (id now : String) (updated_at : Option String) (doc : Doc) (db : Db)
    → ((upsert_response_row e id updated_at doc now db).pending_commands ≡ db.pending_commands)
      × ((upsert_response_row e id updated_at doc now db).sync_state ≡ db.sync_state)
unfolding upsert_response_row
upsert_response_row-keeps e id now updated_at doc db = (refl, refl)
