-- ===== src/Inbox.antt =====
-- apps/mobile/src/lib/inbox.ts and apps/mobile/src/hooks/use-inbox.ts: the inbox on the mirror.
-- `localeCompare` is an argument: whether a text comes no later than another.
pub mod Join
pub mod Marking
use Prim.Native.String.{◌++◌ as join}
use open_troop.Prelude.{
  ℕ, String, Bool, true, false, Option, none, some, get_or, List, [], ◌∷◌, map, str_eq,
  if◌then◌else◌, or_else, length, keep, sort_by,
}
use open_troop.Doc.{Doc, get, put, Json, null, str}
use open_troop.Db.{with_mirror, inbox_messages, inbox_recipients, MirrorRow, Db}
use open_troop.Db.Rows.{find_row}
use open_troop.Mirror.{list_rows}
use open_troop.Commands.Drain.{text_of}
use open_troop.Reads.{field}

pub record MessageRecipient : Type 0 where
  pub id : String
  pub message_id : String
  pub read_at : Option String

pub record Message : Type 0 where
  pub id : String
  pub subject : String
  pub body : String
  pub sent_at : Option String
  pub updated_at : Option String

pub record InboxItem : Type 0 where
  pub recipient_id : String
  pub message_id : String
  pub subject : String
  pub body : String
  pub sent_at : String
  pub read_at : Option String

-- `byId.get(id)`: a later message replaces an earlier one of the same id.
pub message_by_id : String → List Message → Option Message
message_by_id id [] = none
message_by_id id (m ∷ messages) =
    or_else (message_by_id id messages) (if str_eq m.id id then some m else none)

abbrev pub item_of : MessageRecipient → Message → InboxItem
item_of recipient message = record {
  recipient_id = recipient.id;
  message_id = message.id;
  subject = message.subject;
  body = message.body;
  sent_at = get_or (or_else message.sent_at message.updated_at) "";
  read_at = recipient.read_at;
}

-- `recipients.map(…).filter(…)`: a recipient whose message is not there is dropped.
pub join_messages : List MessageRecipient → List Message → List InboxItem
join_messages [] messages = []
join_messages (r ∷ recipients) messages =
    let rest = join_messages recipients messages in
    elim (message_by_id r.message_id messages) [ none ↦ rest | some m ↦ item_of r m ∷ rest ]

abbrev pub is_unread : Option String → Bool
is_unread none = true
is_unread (some at) = false

pub record Inbox : Type 0 where
  pub items : List InboxItem
  pub unread_count : ℕ

module _ (locale_le : String → String → Bool) where
  -- newest first
  abbrev pub newer_first : InboxItem → InboxItem → Bool
  newer_first a b = locale_le b.sent_at a.sent_at

  pub compose_inbox : List MessageRecipient → List Message → Inbox
  compose_inbox recipients messages =
      let items = sort_by newer_first (join_messages recipients messages) in
      record { items = items; unread_count = length (keep (λ i. is_unread i.read_at) items) }

pub recipient_of : Doc → MessageRecipient
recipient_of doc = record {
  id = field "id" doc;
  message_id = field "message_id" doc;
  read_at = text_of (get "read_at" doc);
}

message_of : Doc → Message
message_of doc = record {
  id = field "id" doc;
  subject = field "subject" doc;
  body = field "body" doc;
  sent_at = text_of (get "sent_at" doc);
  updated_at = text_of (get "updated_at" doc);
}

-- `useInbox` on an open database
pub inbox_of : (String → String → Bool) → Db → Inbox
inbox_of locale_le db =
    compose_inbox locale_le (map recipient_of (list_rows inbox_recipients db))
      (map message_of (list_rows inbox_messages db))

-- `parsed.read_at === null`
pub is_null : Option Json → Bool
is_null (some null) = true
is_null _ = false

-- `UPDATE … SET data = ? WHERE id = ?`
pub set_doc : String → Doc → MirrorRow → MirrorRow
set_doc id doc row = if str_eq row.id id then record row { doc = doc } else row

mark_row : String → String → Option MirrorRow → Db → Db
mark_row id now none db = db
mark_row id now (some row) db =
    if is_null (get "read_at" row.doc)
    then with_mirror inbox_recipients
        (map (set_doc id (put "read_at" (str now) row.doc)) (db.mirror inbox_recipients)) db
    else db

-- The local write of `useMarkInboxRead`; `now` is the time.
pub mark_inbox_read : String → String → Db → Db
mark_inbox_read id now db = mark_row id now (find_row id (db.mirror inbox_recipients)) db

-- A row that is there and not read: it is written, and the screens are told by `bump`.
pub is_unread_row : String → Db → Bool
unfolding is_null
is_unread_row id db = elim (find_row id (db.mirror inbox_recipients)) [
  | none ↦ false
  | some row ↦ is_null (get "read_at" row.doc)
]

-- What `useMarkInboxRead` does: the write, whether it calls `bump`, and the path of the POST, whose
-- answer is not awaited.
pub record MarkRead : Type 0 where
  pub db : Option Db
  pub bumped : Bool
  pub posted : Option String

-- `useMarkInboxRead`, where `has_http` is whether there is a client.
abbrev pub use_mark_inbox_read : Bool → String → String → Option Db → MarkRead
use_mark_inbox_read has_http id now none = record { db = none; bumped = false; posted = none }
use_mark_inbox_read has_http id now (some db) = record {
  db = some (mark_inbox_read id now db);
  bumped = is_unread_row id db;
  posted = if has_http then some (join "/messages/inbox/" (join id "/read")) else none;
}

-- Opens the component, for tests that run it.
unfoldable pub run_inbox : Unit {0}
unfolding message_by_id join_messages compose_inbox recipient_of message_of inbox_of is_null set_doc
    mark_row mark_inbox_read get put find_row sort_by
run_inbox = tt
