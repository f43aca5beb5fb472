-- ===== src/Preferences/Cycling.antt =====
-- What taps on the preference come to: apps/mobile/src/hooks/use-notification-preferences.ts.
use open_troop.Prelude.{
  ℕ, zero, suc, ◌≡◌, refl, sym, ap, ◌∙◌, subst, inl, inr, Bool, true, false, not, Option, none,
  some, List, [], ◌∷◌, leb, if◌then◌else◌, Bool-cases, Option-cases,
}
use open_troop.Preferences.{
  every, digest, none_sent, next_mode, tap, finish_save, AnnouncementEmailMode, Answer, Preferences,
}
use open_troop.Web.{is_some}

-- Whether the request is answered with success.
abbrev pub succeeds : Option ℕ → Bool
succeeds none = false
succeeds (some status) = not (leb 400 status)

-- The server that keeps the mode it is sent, and answers with it.
abbrev echo : Option AnnouncementEmailMode → Option ℕ → Option Answer
echo (some mode) (some status) = some (record { status = status; mode = mode })
echo _ _ = none

abbrev answer_save : Option ℕ → Preferences → Preferences
answer_save status s = elim s.saves [ [] ↦ s | body ∷ saves ↦ finish_save (echo body status) s ]

abbrev tap_again : ℕ → Preferences → Preferences
tap_again zero s = s
tap_again (suc n) s = tap_again n (tap s)

-- A tap, more taps while its request is awaited, and the answer: one after the other.
abbrev pub run_taps : List (ℕ × Option ℕ) → Preferences → Preferences
run_taps [] s = s
run_taps ((n, status) ∷ rounds) s = run_taps rounds (answer_save status (tap_again n (tap s)))

-- every → digest → none → every
abbrev pub turn : AnnouncementEmailMode → AnnouncementEmailMode
turn every = digest
turn digest = none_sent
turn none_sent = every

abbrev pub turns : List (ℕ × Option ℕ) → AnnouncementEmailMode → AnnouncementEmailMode
turns [] mode = mode
turns ((n, status) ∷ rounds) mode = turns rounds (if succeeds status then turn mode else mode)

-- The state between two rounds.
abbrev pub IsIdle : AnnouncementEmailMode → Preferences → Type 0
IsIdle mode s = (is_some s.tenant ≡ true) × (s.mode ≡ some mode) × (s.busy ≡ false) × (s.saves ≡ [])

next_mode-eq-turn : (mode : AnnouncementEmailMode) → next_mode mode ≡ some (turn mode)
next_mode-eq-turn every = refl
next_mode-eq-turn digest = refl
next_mode-eq-turn none_sent = refl

tap_busy : (s : Preferences) → s.busy ≡ true → tap s ≡ s
unfolding tap
tap_busy s b = elim (Option-cases s.mode) [
  | inl absent ↦ rw absent refl
  | inr (mode, there) ↦ elim (Bool-cases (is_some s.tenant)) [
    | inl signed_in ↦ rw (there, b, signed_in) refl
    | inr out ↦ rw (there, b, out) refl
  ]
]

tap_again_busy : (n : ℕ) (s : Preferences) → s.busy ≡ true → tap_again n s ≡ s
tap_again_busy zero s b = refl
tap_again_busy (suc n) s b = ap (tap_again n) (tap_busy s b) ∙ tap_again_busy n s b

abbrev waiting : AnnouncementEmailMode → Preferences → Preferences
waiting mode s = record s { busy = true; error = none; saves = some (turn mode) ∷ [] }

tap_idle : (mode : AnnouncementEmailMode) (s : Preferences) → IsIdle mode s → tap s ≡ waiting mode s
unfolding tap
tap_idle mode s (signed_in, there, free, no_saves) =
    rw (there, signed_in, free, no_saves)
      (ap (λ m. record s { mode = some mode; busy = true; error = none; saves = m ∷ [] })
        (next_mode-eq-turn mode))

answered_lem :
    (mode : AnnouncementEmailMode) (status : Option ℕ) (s : Preferences)
    → IsIdle mode s
    → IsIdle (if succeeds status then turn mode else mode) (answer_save status (waiting mode s))
unfolding finish_save
answered_lem mode none s (signed_in, there, free, no_saves) = (signed_in, there, refl, refl)
answered_lem mode (some status) s (signed_in, there, free, no_saves) =
    elim (Bool-cases (leb 400 status)) [
      | inl refused ↦ rw refused (signed_in, there, refl, refl)
      | inr fine ↦ rw fine (signed_in, refl, refl, refl)
    ]

round_lem :
    (mode : AnnouncementEmailMode) (n : ℕ) (status : Option ℕ) (s : Preferences)
    → IsIdle mode s
    → IsIdle
        (if succeeds status then turn mode else mode)
        (answer_save status (tap_again n (tap s)))
round_lem mode n status s idle =
    subst (λ u. IsIdle (if succeeds status then turn mode else mode) (answer_save status u))
      (sym (ap (tap_again n) (tap_idle mode s idle) ∙ tap_again_busy n (waiting mode s) refl))
      (answered_lem mode status s idle)

-- From a state with a tenant, a mode and no request in flight, with a server that keeps the mode it is
-- sent: after any rounds of a tap, further taps while its request is awaited, and its answer, which may be
-- a refusal or none, the screen is not busy and shows the mode turned once for every answer with a
-- status below 400.
pub run_taps_lem :
    (rounds : List (ℕ × Option ℕ)) (mode : AnnouncementEmailMode) (s : Preferences)
    → IsIdle mode s
    → IsIdle (turns rounds mode) (run_taps rounds s)
run_taps_lem [] mode s idle = idle
run_taps_lem ((n, status) ∷ rounds) mode s idle =
    run_taps_lem rounds (if succeeds status then turn mode else mode)
      (answer_save status (tap_again n (tap s))) (round_lem mode n status s idle)
