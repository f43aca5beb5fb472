-- ===== src/Inbox/Marking.antt =====
-- Marking a message read.
use open_troop.Prelude.{
  String, ◌≡◌, refl, ◌∙◌, ◌≢◌, inl, inr, false, Option, none, some, List, [], ◌∷◌, map, arith,
  str_eq, eq_iff, eq_refl, if◌then◌else◌, str_eq-false, Bool-cases,
}
use open_troop.Doc.{Doc, get, put, str}
use open_troop.Db.{inbox_recipients, MirrorRow, Db}
use open_troop.Db.Rows.{find_row}
use open_troop.Inbox.{is_null, set_doc, mark_row, mark_inbox_read}

-- What marking makes of the row: the time of reading, if there is none.
abbrev pub marked : String → MirrorRow → MirrorRow
marked now row =
    if is_null (get "read_at" row.doc)
    then record row { doc = put "read_at" (str now) row.doc }
    else row

find_row-set_doc :
    (id j : String) (d : Doc) (rows : List MirrorRow)
    → find_row j (map (set_doc id d) rows) ≡ (
        if str_eq j id
        then elim (find_row j rows) [ none ↦ none | some r ↦ some (record r { doc = d }) ]
        else find_row j rows)
unfolding find_row set_doc
find_row-set_doc id j d [] = ground arith
find_row-set_doc id j d (r ∷ rows) = elim (Bool-cases (str_eq r.id id)) [
  | inl named ↦
      rw (named, set_doc)
        (ground
          (arith, named, eq_iff r.id id, eq_iff r.id j, eq_iff j id, find_row-set_doc id j d rows))
  | inr other ↦
      rw (other, set_doc)
        (ground
          (arith, other, eq_iff r.id id, eq_iff r.id j, eq_iff j id, find_row-set_doc id j d rows))
]

abbrev pub marked_row : String → Option MirrorRow → Option MirrorRow
marked_row now none = none
marked_row now (some r) = some (marked now r)

mark_row_lem :
    (id j now : String) (db : Db) (o : Option MirrorRow)
    → find_row id (db.mirror inbox_recipients) ≡ o
    → str_eq j id ≡ false
    → (find_row id ((mark_row id now o db).mirror inbox_recipients) ≡ marked_row now o)
      × (find_row j ((mark_row id now o db).mirror inbox_recipients)
          ≡ find_row j (db.mirror inbox_recipients))
unfolding mark_row
mark_row_lem id j now db none found other = (found, refl)
mark_row_lem id j now db (some r) found other = elim (Bool-cases (is_null (get "read_at" r.doc))) [
  | inl unread ↦
      rw (unread, mark_row)
        (
          find_row-set_doc id id (put "read_at" (str now) r.doc) (db.mirror inbox_recipients)
              ∙ rw (eq_refl id, found),
          find_row-set_doc id j (put "read_at" (str now) r.doc) (db.mirror inbox_recipients)
              ∙ rw other,
        )
  | inr done ↦ rw (done, mark_row) (found, refl)
]

-- Marking a recipient read stamps its row with the time, if it is there and not read; the row of any
-- other recipient is as it was.
pub mark_inbox_read_lem :
    (id j now : String) (db : Db)
    → j ≢ id
    → (find_row id ((mark_inbox_read id now db).mirror inbox_recipients)
        ≡ marked_row now (find_row id (db.mirror inbox_recipients)))
      × (find_row j ((mark_inbox_read id now db).mirror inbox_recipients)
          ≡ find_row j (db.mirror inbox_recipients))
unfolding mark_inbox_read
mark_inbox_read_lem id j now db other =
    mark_row_lem id j now db (find_row id (db.mirror inbox_recipients)) refl
      (str_eq-false j id other)
