-- ===== src/Web/Scoping.antt =====
-- The tenant in the query keys of apps/web/src/lib/query-keys.ts.
use mathlib.Core.Option.{some-injective}
use open_troop.Prelude.{
  String, ◌≡◌, refl, sym, ◌∙◌, subst, ◌≢◌, inl, inr, some, List, [], ◌∷◌, arith, All, All-mono,
}
use open_troop.Web.{
  value, object, QueryKey, invalidate, set_data, Apart, run_effect, run_effects, Effect,
  QueryClient,
}
use open_troop.Web.Hooks.{tenant_query, tenant_mutation, TenantQuery, TenantMutation}

abbrev pub OfTenant : String → QueryKey → Type 0
OfTenant t [] = ⊥
OfTenant t (value s ∷ k) = s ≡ some t
OfTenant t (object d ∷ k) = ⊥

abbrev pub effect_key : Effect → QueryKey
effect_key (invalidate k) = k
effect_key (set_data k v) = k

pub query_key-OfTenant : (t : String) (q : TenantQuery) → OfTenant t (tenant_query t q).query_key
query_key-OfTenant t q = ground arith

on_success-OfTenant :
    (t : String) (m : TenantMutation)
    → All (λ e. OfTenant t (effect_key e)) (tenant_mutation t m).on_success
on_success-OfTenant t m = ground arith

OfTenant-Apart : (t u : String) → t ≢ u → (j k : QueryKey) → OfTenant t j → OfTenant u k → Apart j k
OfTenant-Apart t u ne [] k p q = elim p [ ]
OfTenant-Apart t u ne (value a ∷ j) [] p q = elim q [ ]
OfTenant-Apart t u ne (value a ∷ j) (object _ ∷ k) p q = elim q [ ]
OfTenant-Apart t u ne (object _ ∷ j) k p q = elim p [ ]
OfTenant-Apart t u ne (value a ∷ j) (value b ∷ k) p q =
    inl (λ r. ne (some-injective t u (sym p ∙ r ∙ q)))

Apart-irreflexive : (k : QueryKey) → ¬ Apart k k
Apart-irreflexive [] far = elim far [ ]
Apart-irreflexive (object d ∷ k) (inl ne) = elim ne [ ]
Apart-irreflexive (value a ∷ k) (inl ne) = ne refl
Apart-irreflexive (value a ∷ k) (inr far) = Apart-irreflexive k far
Apart-irreflexive (object d ∷ k) (inr far) = Apart-irreflexive k far

Apart-ne : (j k : QueryKey) → Apart j k → j ≢ k
Apart-ne j k far e = Apart-irreflexive k (subst (λ l. Apart l k) e far)

module _ (client : QueryClient) where
  open client use {
    Cache, needs_fetch, get_query_data, invalidate_apart, invalidate_data, set_data_other,
    set_needs_other,
  }

  abbrev pub SameAt : QueryKey → Cache → Cache → Type 0
  SameAt k c d = (get_query_data k d ≡ get_query_data k c) × (needs_fetch k d ≡ needs_fetch k c)

  run_effect_elsewhere :
      (e : Effect) (k : QueryKey) (c : Cache)
      → Apart (effect_key e) k
      → SameAt k c (run_effect client e c)
  run_effect_elsewhere (invalidate j) k c far = (invalidate_data j k c, invalidate_apart j k c far)
  run_effect_elsewhere (set_data j v) k c far =
      (set_data_other j k v c far, set_needs_other j k v c far)

  pub run_effects_elsewhere :
      (es : List Effect) (k : QueryKey) (c : Cache)
      → All (λ e. Apart (effect_key e) k) es
      → SameAt k c (run_effects client es c)
  run_effects_elsewhere [] k c _ = (refl, refl)
  run_effects_elsewhere (e ∷ es) k c (far, h) =
      let here = run_effect_elsewhere e k c far in
      let later = run_effects_elsewhere es k (run_effect client e c) h in
      (later.0 ∙ here.0, later.1 ∙ here.1)

  -- Where `t` and `u` are different tenants, what the success of any mutation hook calls while `t` is
  -- active leaves the cache entry of every query hook of `u` as it was: its data and whether it is to
  -- be fetched; and no query hook of `t` has the key of a query hook of `u`.
  pub mutation_other_tenant :
      (t u : String)
      → t ≢ u
      → (m : TenantMutation) (q r : TenantQuery) (c : Cache)
      → SameAt
          (tenant_query u q).query_key
          c
          (run_effects client (tenant_mutation t m).on_success c)
        × ((tenant_query t r).query_key ≢ (tenant_query u q).query_key)
  mutation_other_tenant t u ne m q r c =
      let there = query_key-OfTenant u q in
      (
        run_effects_elsewhere (tenant_mutation t m).on_success (tenant_query u q).query_key c (
            All-mono _ _ (λ e p. OfTenant-Apart t u ne (effect_key e) _ p there)
              (tenant_mutation t m).on_success (on_success-OfTenant t m)),
        Apart-ne _ _ (OfTenant-Apart t u ne _ _ (query_key-OfTenant t r) there),
      )
