-- ===== src/Doc/Spread.antt =====
-- Laws of objects: reading after writing, and spreading.
use open_troop.Prelude.{
  String, ◌≡◌, ◌≢◌, refl, [], ◌∷◌, none, some, arith, str_eq, eq_iff, eq_refl, if◌then◌else◌,
  Bool-cases, inl, inr, sym, or_else, ◌∙◌, ap, sym,
}
use mathlib.Core.Bool.{false≢true}
use open_troop.Doc.{Json, Doc, get, put, spread}

pub get-put :
    (k j : String) (v : Json) (d : Doc)
    → get j (put k v d) ≡ (if str_eq k j then some v else get j d)
unfolding get put
get-put k j v [] = refl
get-put k j v ((i, w) ∷ d) = ground (arith, eq_iff k j, eq_iff i k, eq_iff i j, get-put k j v d)

put-put_self : (k : String) (v w : Json) (d : Doc) → put k v (put k w d) ≡ put k v d
unfolding put
put-put_self k v w [] = ground (arith, eq_refl k)
put-put_self k v w ((j, u) ∷ d) = ground (arith, put-put_self k v w d)

-- Writes to two keys commute when the one that is written last is there already.
put_comm :
    (k j : String) (v w u : Json) (d : Doc)
    → k ≢ j
    → get k d ≡ some u
    → put k v (put j w d) ≡ put j w (put k v d)
unfolding get put
put_comm k j v w u [] h e = cc
put_comm k j v w u ((i, x) ∷ d) h e = ground (arith, eq_iff i k, eq_iff i j, put_comm k j v w u d h)

-- Each key stands once, as in every object.
abbrev pub HasDistinctKeys : Doc → Type 0
HasDistinctKeys [] = Unit
HasDistinctKeys ((k, v) ∷ d) = (get k d ≡ none) × HasDistinctKeys d

pub put-HasDistinctKeys :
    (k : String) (v : Json) (d : Doc) → HasDistinctKeys d → HasDistinctKeys (put k v d)
unfolding put get
put-HasDistinctKeys k v [] h = (refl, tt)
put-HasDistinctKeys k v ((j, w) ∷ d) (fresh, h) =
    ground (arith, eq_iff j k, eq_iff k j, get-put k j v d, put-HasDistinctKeys k v d h)

pub spread-HasDistinctKeys : (b d : Doc) → HasDistinctKeys b → HasDistinctKeys (spread b d)
unfolding spread
spread-HasDistinctKeys b [] h = h
spread-HasDistinctKeys b ((k, v) ∷ d) h =
    spread-HasDistinctKeys (put k v b) d (put-HasDistinctKeys k v b h)

-- Properties of `d` win; the others are those of the base.
pub get-spread :
    (j : String) (b d : Doc) → HasDistinctKeys d → get j (spread b d) ≡ or_else (get j d) (get j b)
unfolding spread get
get-spread j b [] h = refl
get-spread j b ((k, v) ∷ d) (fresh, h) =
    ground (arith, get-spread j (put k v b) d h, get-put k j v b, eq_iff k j)

-- A key that `d` does not write may be written before or after, once it is there.
put-spread :
    (k : String) (v u : Json) (b d : Doc)
    → get k d ≡ none
    → get k b ≡ some u
    → put k v (spread b d) ≡ spread (put k v b) d
unfolding spread get
put-spread k v u b [] h e = refl
put-spread k v u b ((j, w) ∷ d) h e = elim (Bool-cases (str_eq j k)) [
  | inl same ↦ cc (rw same at h)
  | inr other ↦
      let apart : k ≢ j = λ p. false≢true (sym other ∙ ap (str_eq j) p ∙ eq_refl j) in
      put-spread k v u (put j w b) d (rw other at h) (get-put j k w b ∙ rw other e)
      ∙ ap (λ x. spread x d) (put_comm k j v w u b apart e)
]

pub spread-put :
    (k : String) (v : Json) (b d : Doc)
    → HasDistinctKeys d
    → spread b (put k v d) ≡ put k v (spread b d)
unfolding spread put get
spread-put k v b [] h = refl
spread-put k v b ((j, w) ∷ d) (fresh, h) = elim (Bool-cases (str_eq j k)) [
  | inl same ↦ rw same (
      sym (ap (λ x. spread x d) (put-put_self j v w b))
      ∙ sym (put-spread j v w (put j w b) d fresh (get-put j j w b ∙ rw (eq_refl j)))
      ∙ ap (λ x. put x v (spread (put j w b) d)) ((eq_iff j k).0 same))
  | inr other ↦ rw other (spread-put k v (put j w b) d h)
]

-- Spreading in one go is spreading one after the other.
pub spread_assoc : (b d e : Doc) → HasDistinctKeys d → spread b (spread d e) ≡ spread (spread b d) e
unfolding spread
spread_assoc b d [] h = refl
spread_assoc b d ((k, v) ∷ e) h =
    spread_assoc b (put k v d) e (put-HasDistinctKeys k v d h)
    ∙ ap (λ x. spread x e) (spread-put k v b d h)
