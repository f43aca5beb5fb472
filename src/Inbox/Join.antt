-- ===== src/Inbox/Join.antt =====
-- What the inbox shows: the join, in order, with its count.
use open_troop.Prelude.{
  suc, String, ◌≡◌, refl, sym, ap, ◌∙◌, inl, inr, Bool, true, false, ◌&&◌, Option, none, some, List,
  [], ◌∷◌, arith, Bool-cases, Option-cases, length, keep, keep_pointwise, keep_every, sort_by,
  IsAscending, length-keep-sort_by, sort_by-IsAscending,
}
use open_troop.Inbox.{
  message_by_id, join_messages, is_unread, newer_first, compose_inbox, MessageRecipient, Message,
}

-- The recipients whose message is there.
abbrev pub has_message : List Message → MessageRecipient → Bool
has_message messages r = elim (message_by_id r.message_id messages) [ none ↦ false | some m ↦ true ]

abbrev pub recipient_is_unread : List Message → MessageRecipient → Bool
recipient_is_unread messages r = has_message messages r && is_unread r.read_at

length-join_messages :
    (t : Option String → Bool) (recipients : List MessageRecipient) (messages : List Message)
    → length (keep (λ i. t i.read_at) (join_messages recipients messages))
      ≡ length (keep (λ r. has_message messages r && t r.read_at) recipients)
unfolding join_messages
length-join_messages t [] messages = refl
length-join_messages t (r ∷ recipients) messages =
    elim (Option-cases (message_by_id r.message_id messages)) [
      | inl absent ↦
          rw (absent, join_messages, has_message) (length-join_messages t recipients messages)
      | inr (m, found) ↦ elim (Bool-cases (t r.read_at)) [
        | inl yes_too ↦
            rw (found, yes_too, join_messages, has_message)
              (ap suc (length-join_messages t recipients messages))
        | inr not_it ↦
            rw (found, not_it, join_messages, has_message)
              (length-join_messages t recipients messages)
      ]
    ]

-- The inbox has one item for each recipient whose message is there, and counts as unread those of
-- them that are not read; the items are newest first, if the comparison is total.
pub compose_inbox_lem :
    (locale_le : String → String → Bool) (recipients : List MessageRecipient)
    (messages : List Message)
    → ((a b : String) → locale_le a b ≡ false → locale_le b a ≡ true)
    → (length (compose_inbox locale_le recipients messages).items
        ≡ length (keep (has_message messages) recipients))
      × ((compose_inbox locale_le recipients messages).unread_count
          ≡ length (keep (recipient_is_unread messages) recipients))
      × IsAscending (newer_first locale_le) (compose_inbox locale_le recipients messages).items
unfolding compose_inbox
compose_inbox_lem locale_le recipients messages total =
    let le = newer_first locale_le in
    let items = join_messages recipients messages in
    (
      ap length (sym (keep_every (sort_by le items)))
          ∙ length-keep-sort_by le (λ i. true) items
          ∙ length-join_messages (λ at. true) recipients messages
          ∙ ap length (
              keep_pointwise (λ r. has_message messages r && true) (has_message messages)
                (λ r. ground arith) recipients),
      length-keep-sort_by le (λ i. is_unread i.read_at) items
          ∙ length-join_messages is_unread recipients messages,
      sort_by-IsAscending le (λ a b. total b.sent_at a.sent_at) items,
    )
