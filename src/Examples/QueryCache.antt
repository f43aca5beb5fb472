-- ===== src/Examples/QueryCache.antt =====
-- A query client that does what the documentation says, with a cache for each key as a function.
use open_troop.Prelude.{
  ◌≡◌, refl, ap, ◌⊎◌, inl, inr, Bool, true, false, ◌&&◌, Option, none, some, [], ◌∷◌, ◌++◌, arith,
  str_eq, eq_refl, if◌then◌else◌, str_eq-false, if-holds,
}
use open_troop.Doc.{Json}
use open_troop.Web.{QueryKey, Differs, Apart, Segment, value, object, QueryClient}

abbrev segment_matches : Segment → Segment → Bool
segment_matches (value none) (value none) = true
segment_matches (value (some a)) (value (some b)) = str_eq a b
segment_matches (object a) (object b) = true
segment_matches _ _ = false

abbrev starts_key : QueryKey → QueryKey → Bool
starts_key [] k = true
starts_key (x ∷ j) [] = false
starts_key (x ∷ j) (y ∷ k) = segment_matches x y && starts_key j k

abbrev same_key : QueryKey → QueryKey → Bool
same_key [] [] = true
same_key (x ∷ j) (y ∷ k) = segment_matches x y && same_key j k
same_key _ _ = false

segment_matches_itself : (x : Segment) → segment_matches x x ≡ true
segment_matches_itself (value none) = refl
segment_matches_itself (value (some a)) = eq_refl a
segment_matches_itself (object d) = refl

Differs-matches : (x y : Segment) → Differs x y → segment_matches x y ≡ false
Differs-matches (value none) (value none) ne = absurd (ne refl)
Differs-matches (value none) (value (some b)) ne = refl
Differs-matches (value (some a)) (value none) ne = refl
Differs-matches (value (some a)) (value (some b)) ne = str_eq-false a b (λ e. ne (ap some e))
Differs-matches (value a) (object d) ne = elim ne [ ]
Differs-matches (object d) (value a) ne = elim ne [ ]
Differs-matches (object c) (object d) ne = elim ne [ ]

pub starts_key-append : (j rest : QueryKey) → starts_key j (j ++ rest) ≡ true
starts_key-append [] rest = refl
starts_key-append (x ∷ j) rest = rw (segment_matches_itself x, starts_key-append j rest) refl

pub same_key_itself : (k : QueryKey) → same_key k k ≡ true
same_key_itself [] = refl
same_key_itself (x ∷ k) = rw (segment_matches_itself x, same_key_itself k) refl

both-false : {a b : Bool} → (a ≡ false) ⊎ (b ≡ false) → (a && b) ≡ false
both-false h = ground (arith, h)

pub starts_key-Apart : (j k : QueryKey) → Apart j k → starts_key j k ≡ false
starts_key-Apart [] k far = elim far [ ]
starts_key-Apart (x ∷ j) [] far = refl
starts_key-Apart (x ∷ j) (y ∷ k) (inl ne) = both-false (inl (Differs-matches x y ne))
starts_key-Apart (x ∷ j) (y ∷ k) (inr far) = both-false (inr (starts_key-Apart j k far))

pub same_key-Apart : (j k : QueryKey) → Apart j k → same_key j k ≡ false
same_key-Apart [] k far = elim far [ ]
same_key-Apart (x ∷ j) [] far = refl
same_key-Apart (x ∷ j) (y ∷ k) (inl ne) = both-false (inl (Differs-matches x y ne))
same_key-Apart (x ∷ j) (y ∷ k) (inr far) = both-false (inr (same_key-Apart j k far))

pub record Entries : Type 0 where
  pub needs : QueryKey → Bool
  pub data_of : QueryKey → Option Json

abbrev invalidated : QueryKey → Entries → Entries
invalidated j c = record c { needs = λ k. if starts_key j k then true else c.needs k }

abbrev with_data : QueryKey → Json → Entries → Entries
with_data j v c = record {
  needs = λ k. if same_key j k then false else c.needs k;
  data_of = λ k. if same_key j k then some v else c.data_of k;
}

abbrev pub no_entries : Entries
no_entries = record { needs = λ k. true; data_of = λ k. none }

abbrev pub memory_client : QueryClient
memory_client = record {
  Cache = Entries;
  invalidate_queries = invalidated;
  set_query_data = with_data;
  clear = λ c. no_entries;
  needs_fetch = λ k c. c.needs k;
  get_query_data = λ k c. c.data_of k;
  invalidate_prefix = λ j rest c. rw (starts_key-append j rest) refl;
  invalidate_apart = λ j k c far. rw (starts_key-Apart j k far) refl;
  invalidate_keeps =
      λ j k c h. if-holds (λ b. b ≡ true) (starts_key j k) true (c.needs k) (λ _. refl) (λ _. h);
  invalidate_data = λ j k c. refl;
  set_data_same = λ k v c. rw (same_key_itself k) refl;
  set_data_other = λ j k v c far. rw (same_key-Apart j k far) refl;
  set_needs_other = λ j k v c far. rw (same_key-Apart j k far) refl;
  clear_data = λ k c. refl;
  clear_needs = λ k c. refl;
}
