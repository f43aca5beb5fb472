-- ===== src/Overlay/Participants.antt =====
-- The overlay of participants: the rows of the mirror stay in their places, and no target is shown
-- twice.
use mathlib.Core.Option.{some-injective}
use open_troop.Prelude.{
  ℕ, String, ◌≡◌, refl, sym, ap, ◌∙◌, subst, ◌⊎◌, inl, inr, false, none, some, List, [], ◌∷◌, ◌++◌,
  arith, str_eq, eq_iff, eq_refl, ◌==◌, ==_iff, str_eq-false, Bool-cases, Option-cases, length,
  get_elem?, set, All,
}
use open_troop.Db.{participant_create, CommandPayload, PendingCommand}
use open_troop.Commands.{kind_eq}
use open_troop.Overlay.{
  participant_key, target_at, index_from, patches_participant, with_fields, patch_at, synthesize,
  append_participant, overlay_command, overlay_loop, overlay_participants, ParticipantLike, Overlay,
}
use open_troop.Overlay.Indexing.{
  key_of, command_key, HasDistinctTargets, IsIndexed-HasDistinctTargets, target_at-append,
  get_elem?-append, get_elem?-set, get_elem?-lt, IsIndexed-start, IsIndexed,
}

-- The row at each place keeps its id and its target.
pub record IsKept (rows out : List ParticipantLike) : Type 0 where
  pub at :
      (i : ℕ) (p : ParticipantLike)
      → get_elem? rows i ≡ some p
      → (q : ParticipantLike) × (get_elem? out i ≡ some q) × (q.id ≡ p.id) × (key_of q ≡ key_of p)

patch_at-IsIndexed :
    (cmd : PendingCommand) (i : ℕ) (p : ParticipantLike) (o : Overlay)
    → get_elem? o.out i ≡ some p
    → IsIndexed o
    → IsIndexed (patch_at cmd i (some p) o)
unfolding patch_at
patch_at-IsIndexed cmd i p o e h =
    let p' = with_fields cmd.payload.fields p in
    record {
      sound = λ key j t. elim (Bool-cases (i == j)) [
        | inl same ↦
            let (q, at, named) = h.sound key j t in
            let k : i ≡ j = (==_iff i j).0 same in
            let pq : p ≡ q = some-injective p q (sym e ∙ ap (get_elem? o.out) k ∙ at) in
            (p', get_elem?-set o.out p' p i j e ∙ rw same, ap key_of pq ∙ named)
        | inr other ↦
            let (q, at, named) = h.sound key j t in
            (q, get_elem?-set o.out p' p i j e ∙ rw other at, named)
      ];
      complete = λ j q at. elim (Bool-cases (i == j)) [
        | inl same ↦
            let k : i ≡ j = (==_iff i j).0 same in
            let here : get_elem? (set o.out i p') j ≡ some p' =
              get_elem?-set o.out p' p i j e ∙ rw same in
            let pq : p' ≡ q = some-injective p' q (sym here ∙ at) in
            ap (λ x. target_at (key_of x) o.by_target) (sym pq)
            ∙ h.complete i p e
            ∙ ap (λ n. some n) k
        | inr other ↦
            let there : get_elem? (set o.out i p') j ≡ get_elem? o.out j =
              get_elem?-set o.out p' p i j e ∙ rw other in
            h.complete j q (sym there ∙ at)
      ];
    }

patch_at-IsKept :
    (cmd : PendingCommand) (i : ℕ) (p : ParticipantLike) (o : Overlay)
    → get_elem? o.out i ≡ some p
    → IsKept o.out (patch_at cmd i (some p) o).out
unfolding patch_at
patch_at-IsKept cmd i p o e = record {
  at = λ j q h. elim (Bool-cases (i == j)) [
    | inl same ↦
        let p' = with_fields cmd.payload.fields p in
        let pq : p ≡ q =
          some-injective p q (sym e ∙ ap (get_elem? o.out) ((==_iff i j).0 same) ∙ h) in
        (p', get_elem?-set o.out p' p i j e ∙ rw same, ap (λ x. x.id) pq, ap key_of pq)
    | inr other ↦ (q, get_elem?-set o.out _ p i j e ∙ rw other h, refl, refl)
  ];
}

IsKept-trans : {a b c : List ParticipantLike} → IsKept a b → IsKept b c → IsKept a c
IsKept-trans h k = record {
  at = λ i p e.
      let (q, eq, qid, qk) = h.at i p e in
      let (r, er, rid, rk) = k.at i q eq in (r, er, rid ∙ qid, rk ∙ qk);
}

IsKept-refl : (a : List ParticipantLike) → IsKept a a
IsKept-refl a = record { at = λ i p e. (p, e, refl, refl) }

-- `makeBase` builds a row for the target of the payload.
module _ (make_base : CommandPayload → ParticipantLike)
    (made_for : (p : CommandPayload) (m : String)
      → p.member_id ≡ some m
      → key_of (make_base p) ≡ participant_key p.event_id m) where
  abbrev HasMember : PendingCommand → Type 0
  HasMember cmd = (m : String) × (cmd.payload.member_id ≡ some m)

  -- A command that creates a participant names the member.
  abbrev pub NamesMember : PendingCommand → Type 0
  NamesMember cmd =
      (kind_eq cmd.kind participant_create ≡ false)
      ⊎ ((m : String) × (cmd.payload.member_id ≡ some m))

  key-synthesize :
      (cmd : PendingCommand) → HasMember cmd → key_of (synthesize make_base cmd) ≡ command_key cmd
  unfolding synthesize
  key-synthesize cmd (m, e) = made_for cmd.payload m e ∙ rw e

  append-IsIndexed :
      (cmd : PendingCommand) (o : Overlay)
      → HasMember cmd
      → target_at (command_key cmd) o.by_target ≡ none
      → IsIndexed o
      → IsIndexed (append_participant make_base cmd (command_key cmd) o)
  unfolding append_participant
  append-IsIndexed cmd o n absent h =
      let new = synthesize make_base cmd in
      let k = command_key cmd in
      let place = length o.out in
      record {
        sound = λ key j t. elim (Bool-cases (str_eq k key)) [
          | inl same ↦
              let at_end : target_at key (o.by_target ++ (k, place) ∷ []) ≡ some place =
                target_at-append key o.by_target k place ∙ rw same in
              let e : place ≡ j = some-injective place j (sym at_end ∙ t) in
              (
                new,
                subst (λ x. get_elem? (o.out ++ new ∷ []) x ≡ some new) e
                    (get_elem?-append o.out new place ∙ rw ((==_iff place place).1 refl)),
                key-synthesize cmd n ∙ (eq_iff k key).0 same,
              )
          | inr other ↦
              let before : target_at key (o.by_target ++ (k, place) ∷ [])
                  ≡ target_at key o.by_target =
                target_at-append key o.by_target k place ∙ rw other in
              let (q, at, named) = h.sound key j (sym before ∙ t) in
              let inside : (j == place) ≡ false = ground (arith, get_elem?-lt o.out j q at) in
              (q, get_elem?-append o.out new j ∙ rw inside at, named)
        ];
        complete = λ j q at. elim (Bool-cases (j == place)) [
          | inl last ↦
              let e : j ≡ place = (==_iff j place).0 last in
              let here : get_elem? (o.out ++ new ∷ []) j ≡ some new =
                get_elem?-append o.out new j ∙ rw last in
              let nq : new ≡ q = some-injective new q (sym here ∙ at) in
              let named : k ≡ key_of q = sym (key-synthesize cmd n) ∙ ap key_of nq in
              subst (λ x. target_at x (o.by_target ++ (k, place) ∷ []) ≡ some j) named
                (target_at-append k o.by_target k place ∙ rw (eq_refl k) (ap (λ x. some x) (sym e)))
          | inr inside ↦
              let there : get_elem? (o.out ++ new ∷ []) j ≡ get_elem? o.out j =
                get_elem?-append o.out new j ∙ rw inside in
              let old = h.complete j q (sym there ∙ at) in
              let apart : str_eq k (key_of q) ≡ false =
                str_eq-false k (key_of q)
                  (λ e. cc (absent, old, ap (λ x. target_at x o.by_target) e)) in
              target_at-append (key_of q) o.by_target k place ∙ rw apart old
        ];
      }

  append-IsKept :
      (cmd : PendingCommand) (o : Overlay)
      → IsKept o.out (append_participant make_base cmd (command_key cmd) o).out
  unfolding append_participant
  append-IsKept cmd o = record {
    at = λ j q h.
        let inside : (j == length o.out) ≡ false = ground (arith, get_elem?-lt o.out j q h) in
        (q, get_elem?-append o.out _ j ∙ rw inside h, refl, refl);
  }

  -- One step of the loop keeps both.
  overlay_command_keeps :
      (cmd : PendingCommand) (o : Overlay)
      → NamesMember cmd
      → IsIndexed o
      → IsIndexed (overlay_command make_base cmd o)
        × IsKept o.out (overlay_command make_base cmd o).out
  unfolding overlay_command
  overlay_command_keeps cmd o n h = elim (Bool-cases (patches_participant cmd)) [
    | inr other ↦ rw (other, overlay_command) (h, IsKept-refl o.out)
    | inl here ↦ elim (Option-cases (target_at (command_key cmd) o.by_target)) [
      | inr (i, e) ↦
          let (p, at, named) = h.sound (command_key cmd) i e in
          rw (here, e, at, overlay_command)
            (patch_at-IsIndexed cmd i p o at h, patch_at-IsKept cmd i p o at)
      | inl absent ↦ elim (Bool-cases (kind_eq cmd.kind participant_create)) [
        | inl create ↦ elim n [
          | inl updates ↦ cc (create, updates)
          | inr named ↦
              rw (here, absent, create, overlay_command)
                (append-IsIndexed cmd o named absent h, append-IsKept cmd o)
        ]
        | inr update ↦ rw (here, absent, update, overlay_command) (h, IsKept-refl o.out)
      ]
    ]
  ]

  overlay_loop_keeps :
      (cmds : List PendingCommand) (o : Overlay)
      → All NamesMember cmds
      → IsIndexed o
      → IsIndexed (overlay_loop make_base cmds o) × IsKept o.out (overlay_loop make_base cmds o).out
  unfolding overlay_loop
  overlay_loop_keeps [] o n h = (h, IsKept-refl o.out)
  overlay_loop_keeps (cmd ∷ cmds) o (n, ns) h =
      let (h', kept) = overlay_command_keeps cmd o n h in
      let (h'', later) = overlay_loop_keeps cmds (overlay_command make_base cmd o) ns h' in
      (h'', IsKept-trans kept later)

  -- If no target stands twice in the mirror and each command that creates a participant names the
  -- member, then no target is shown twice, and every row of the mirror is shown in its place, with
  -- its id and its target. This is with a `makeBase` that builds a row for the payload's target.
  pub overlay_participants_keeps :
      (rows : List ParticipantLike) (cmds : List PendingCommand)
      → All NamesMember cmds
      → HasDistinctTargets rows
      → HasDistinctTargets (overlay_participants make_base rows cmds)
        × IsKept rows (overlay_participants make_base rows cmds)
  unfolding overlay_participants
  overlay_participants_keeps rows cmds n d =
      let start : Overlay = record { out = rows; by_target = index_from 0 rows } in
      let (h, kept) = overlay_loop_keeps cmds start n (IsIndexed-start rows d) in
      (IsIndexed-HasDistinctTargets (overlay_loop make_base cmds start) h, kept)
