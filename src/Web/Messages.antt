-- ===== src/Web/Messages.antt =====
-- Messages and the inbox, apps/web/src/hooks/use-messages.ts.
use open_troop.Prelude.{String, Bool, ◌&&◌, Option, none, some, [], ◌∷◌}
use open_troop.Web.{
  value, object, word, fetched, sent, bare, template, shown, truthy, is_some, when_active,
  when_given, invalidate, Segment, QueryOptions, Mutation,
}
use open_troop.Doc.{Doc}
use open_troop.Web.QueryKeys

-- `enabled` is an argument of the hook.
abbrev pub use_messages : Bool → String → QueryOptions
use_messages enabled t = record {
  query_key = QueryKeys.messages (some t);
  query_fn = fetched "/messages";
  enabled = enabled && truthy t;
}

abbrev pub use_message : String → Option String → QueryOptions
use_message t id =
    when_given t id (QueryKeys.message (some t) id)
      (fetched (template ("/messages/" ∷ shown id ∷ [])))

abbrev pub use_recipient_preview : String → Option String → QueryOptions
use_recipient_preview t id =
    when_given t id (QueryKeys.message_preview (some t) id)
      (fetched (template ("/messages/" ∷ shown id ∷ "/recipients/preview" ∷ [])))

-- A body that is `null`
abbrev body_segment : Option Doc → Segment
body_segment none = value none
body_segment (some body) = object body

-- A preview is a query, though it posts. With no body it is off.
abbrev pub use_recipient_preview_for : String → Option Doc → QueryOptions
use_recipient_preview_for t body = record {
  query_key = value (some t) ∷ word "recipient-preview" ∷ body_segment body ∷ [];
  query_fn = record {
    path = "/messages/recipients/preview";
    query = [];
    method = "POST";
    body = body;
  };
  enabled = truthy t && is_some body;
}

abbrev pub use_inbox : String → QueryOptions
use_inbox t = when_active t (QueryKeys.inbox (some t)) (fetched "/messages/inbox")

abbrev pub use_create_message : String → Doc → Mutation
use_create_message t fields = record {
  mutation_fn = sent "POST" "/messages" fields;
  on_success = invalidate (QueryKeys.messages (some t)) ∷ [];
}

abbrev pub use_send_message : String → String → Mutation
use_send_message t id = record {
  mutation_fn = bare "POST" (template ("/messages/" ∷ id ∷ "/send" ∷ []));
  on_success =
      invalidate (QueryKeys.messages (some t))
      ∷ invalidate (QueryKeys.message (some t) (some id))
      ∷ [];
}

abbrev pub use_mark_inbox_read : String → String → Mutation
use_mark_inbox_read t recipient_id = record {
  mutation_fn = bare "POST" (template ("/messages/inbox/" ∷ recipient_id ∷ "/read" ∷ []));
  on_success = invalidate (QueryKeys.inbox (some t)) ∷ [];
}
