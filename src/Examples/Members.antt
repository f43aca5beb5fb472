-- ===== src/Examples/Members.antt =====
-- The household and the inbox at concrete inputs.
use open_troop.Prelude.{
  String, ◌≡◌, refl, ◌≢◌, Bool, true, false, ◌&&◌, ◌||◌, none, some, List, [], ◌∷◌, arith, str_eq,
  eq_iff, if◌then◌else◌,
}
use open_troop.Doc.{null, str}
use open_troop.Db.{entity_eq, inbox_recipients, MirrorRow, Db}
use open_troop.Household.{
  has, member_by_id, is_active, household_ids, is_direct_guardian, run_household,
  MemberRelationship, Member,
}
use open_troop.Household.Closure.{has_edge, shares_child, has-household_ids}
use open_troop.Inbox.{MessageRecipient, Message}

abbrev edge : String → String → MemberRelationship
edge a b = record {
  from_member_id = a;
  to_member_id = b;
  relationship_type = "parent_of";
  is_deleted = false;
}

abbrev active : String → Member
active id = record { id = id; is_deleted = false }

-- Ann and Bob have Cy; Bob and Dee have Eve.
abbrev edges : List MemberRelationship
edges = edge "ann" "cy" ∷ edge "bob" "cy" ∷ edge "bob" "eve" ∷ edge "dee" "eve" ∷ []

abbrev people : List Member
people = active "ann" ∷ active "bob" ∷ active "cy" ∷ active "dee" ∷ active "eve" ∷ []

household_of_ann : household_ids "ann" edges people ≡ "ann" ∷ "cy" ∷ "bob" ∷ []
unfolding run_household
household_of_ann = refl

has-household_ids_example : has "eve" (household_ids "ann" edges people) ≡ (
    str_eq "eve" "ann"
    || (is_active (member_by_id "eve" people)
        && (has_edge "ann" "eve" edges || shares_child "ann" "eve" edges edges)))
has-household_ids_example = has-household_ids "ann" "eve" edges people

ann_may_sign : is_direct_guardian "ann" "cy" edges ≡ true
unfolding run_household
ann_may_sign = refl

cy_active : is_active (member_by_id "cy" people) ≡ true
unfolding run_household
cy_active = refl

abbrev unread : MessageRecipient
unread = record { id = "r1"; message_id = "m1"; read_at = none }

abbrev not_synced : MessageRecipient
not_synced = record { id = "r2"; message_id = "m2"; read_at = none }

abbrev welcome : Message
welcome = record {
  id = "m1";
  subject = "Welcome";
  body = "Hello";
  sent_at = some "t1";
  updated_at = none;
}

-- An order in which all texts are equal.
abbrev any_order : String → String → Bool
any_order a b = true

abbrev inbox_row : MirrorRow
inbox_row = record {
  id = "r1";
  sync_seq = 3;
  updated_at = "t1";
  seen_epoch = 1;
  doc = ("id", str "r1") ∷ ("read_at", null) ∷ [];
}

abbrev inbox_db : Db
inbox_db = record {
  mirror = λ e. if entity_eq e inbox_recipients then inbox_row ∷ [] else [];
  sync_state = λ e. none;
  pending_commands = [];
  meta = λ k. none;
}

abbrev second_id : String
second_id = "r2"

r2_ne_r1 : second_id ≢ "r1"
r2_ne_r1 h = ground (arith, eq_iff second_id "r1", h)
