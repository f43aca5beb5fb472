-- ===== src/Web/Refetch.antt =====
-- What is fetched again after a mutation of apps/web/src/hooks/.
use open_troop.Prelude.{String, ◌≡◌, sym, subst, ◌⊎◌, inl, inr, true, List, [], ◌∷◌, arith}
use open_troop.Web.{QueryKey, invalidate, set_data, run_effects, Effect, QueryClient}
use open_troop.Web.Hooks.{tenant_query, tenant_mutation, TenantQuery, TenantMutation}
use open_troop.Web.Reach.{IsPrefixOf, IsPrefixOf-append}

abbrev pub OnlyInvalidates : List Effect → Type 0
OnlyInvalidates [] = Unit {0}
OnlyInvalidates (invalidate j ∷ es) = OnlyInvalidates es
OnlyInvalidates (set_data j v ∷ es) = ⊥

abbrev pub SetsFirst : List Effect → Type 0
SetsFirst [] = Unit {0}
SetsFirst (invalidate j ∷ es) = OnlyInvalidates es
SetsFirst (set_data j v ∷ es) = SetsFirst es

abbrev pub Invalidates : QueryKey → List Effect → Type 0
Invalidates j [] = ⊥
Invalidates j (invalidate i ∷ es) = (i ≡ j) ⊎ Invalidates j es
Invalidates j (set_data i v ∷ es) = Invalidates j es

on_success-SetsFirst :
    (t : String) (m : TenantMutation) → SetsFirst (tenant_mutation t m).on_success
on_success-SetsFirst t m = ground arith

OnlyInvalidates-SetsFirst : (es : List Effect) → OnlyInvalidates es → SetsFirst es
OnlyInvalidates-SetsFirst [] h = tt
OnlyInvalidates-SetsFirst (invalidate j ∷ es) h = h
OnlyInvalidates-SetsFirst (set_data j v ∷ es) h = elim h [ ]

module _ (client : QueryClient) where
  open client use {Cache, needs_fetch, invalidate_queries, invalidate_prefix, invalidate_keeps}

  stays_unfetched :
      (es : List Effect) (k : QueryKey) (c : Cache)
      → OnlyInvalidates es
      → needs_fetch k c ≡ true
      → needs_fetch k (run_effects client es c) ≡ true
  stays_unfetched [] k c h stale = stale
  stays_unfetched (invalidate j ∷ es) k c h stale =
      stays_unfetched es k (invalidate_queries j c) h (invalidate_keeps j k c stale)
  stays_unfetched (set_data j v ∷ es) k c h stale = elim h [ ]

  invalidate-IsPrefixOf :
      (j k : QueryKey) (c : Cache) → IsPrefixOf j k → needs_fetch k (invalidate_queries j c) ≡ true
  invalidate-IsPrefixOf j k c p =
      let (rest, e) = IsPrefixOf-append j k p in
      subst (λ l. needs_fetch l (invalidate_queries j c) ≡ true) e (invalidate_prefix j rest c)

  pub run_effects_refetch :
      (es : List Effect) (j k : QueryKey) (c : Cache)
      → SetsFirst es
      → Invalidates j es
      → IsPrefixOf j k
      → needs_fetch k (run_effects client es c) ≡ true
  run_effects_refetch [] j k c h i p = elim i [ ]
  run_effects_refetch (set_data i v ∷ es) j k c h there p =
      run_effects_refetch es j k (client.set_query_data i v c) h there p
  run_effects_refetch (invalidate i ∷ es) j k c h (inl here) p =
      stays_unfetched es k (invalidate_queries i c) h
        (invalidate-IsPrefixOf i k c (subst (λ l. IsPrefixOf l k) (sym here) p))
  run_effects_refetch (invalidate i ∷ es) j k c h (inr there) p =
      run_effects_refetch es j k (invalidate_queries i c) (OnlyInvalidates-SetsFirst es h) there p

  -- Where the success handler of a mutation hook invalidates a key, every query hook whose key starts
  -- with it is fetched again: no later call of the handler makes the entry count as fresh.
  pub refetched_after_success :
      (t : String) (m : TenantMutation) (q : TenantQuery) (j : QueryKey) (c : Cache)
      → Invalidates j (tenant_mutation t m).on_success
      → IsPrefixOf j (tenant_query t q).query_key
      → needs_fetch
          (tenant_query t q).query_key
          (run_effects client (tenant_mutation t m).on_success c)
        ≡ true
  refetched_after_success t m q j c there p =
      run_effects_refetch (tenant_mutation t m).on_success j (tenant_query t q).query_key c
        (on_success-SetsFirst t m) there p
