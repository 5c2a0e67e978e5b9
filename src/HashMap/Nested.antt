-- ===== src/HashMap/Nested.antt =====
-- Maps of maps: `entry(k).or_default()` and the removal that drops an inner map left empty.
use alert_distributor.Base.{
  ◌≡◌, ◌&&◌, Option, none, some, [], arith, Eq, ◌==◌, ==_iff, if◌then◌else◌, is_empty, unwrap_or,
  and_then, Option-cases, inl, inr,
}
use alert_distributor.HashMap.Distinct.{IsMap, insert-IsMap, remove-IsMap}
use alert_distributor.HashMap.Lookup.{
  HashMap, get, remove, insert, get-remove, get-insert, get-nil, get-is_empty, map_laws,
}

module _ {ℓ κ μ} {K : Type ℓ} {J : Type κ} {V : Type μ} ⦃e : Eq K⦄ ⦃f : Eq J⦄ where
  abbrev pub get₂ : K → J → HashMap K (HashMap J V) → Option V
  get₂ k j m = and_then (get k m) (get j)

  -- `m.entry(k).or_default().insert(j, v)`.
  unfoldable pub insert_at : K → J → V → HashMap K (HashMap J V) → HashMap K (HashMap J V)
  insert_at k j v m = insert k (insert j v (unwrap_or (get k m) [])) m

  -- What `if inner.is_empty() { m.remove(k) }` leaves after the inner map became `inner`.
  unfoldable pub put_or_prune : K → HashMap J V → HashMap K (HashMap J V) → HashMap K (HashMap J V)
  put_or_prune k inner m = if is_empty inner then remove k m else insert k inner m

  -- `if let Some(inner) = m.get_mut(k) { inner.remove(j); if inner.is_empty() { m.remove(k) } }`.
  unfoldable pub remove_at : K → J → HashMap K (HashMap J V) → HashMap K (HashMap J V)
  unfolding put_or_prune
  remove_at k j m = elim (get k m) [ none ↦ m | some inner ↦ put_or_prune k (remove j inner) m ]

  pub get₂-insert_at :
      (k a : K) (j b : J) (v : V) (m : HashMap K (HashMap J V))
      → get₂ a b (insert_at k j v m) ≡ (if k == a && j == b then some v else get₂ a b m)
  unfolding insert_at
  get₂-insert_at k a j b v m = ground (
    arith,
    get-insert k a (insert j v (unwrap_or (get k m) [])) m,
    get-insert j b v (unwrap_or (get k m) []),
    get-nil {V = V} b,
    ==_iff k a,
  )

  pub get₂-put_or_prune :
      (k a : K) (b : J) (inner : HashMap J V) (m : HashMap K (HashMap J V))
      → get₂ a b (put_or_prune k inner m) ≡ (if k == a then get b inner else get₂ a b m)
  unfolding put_or_prune
  get₂-put_or_prune k a b inner m =
      ground (arith, get-insert k a inner m, get-remove k a m, get-is_empty b inner)

  pub get₂-remove_at :
      (k a : K) (j b : J) (m : HashMap K (HashMap J V))
      → get₂ a b (remove_at k j m) ≡ (if k == a && j == b then none else get₂ a b m)
  unfolding remove_at
  get₂-remove_at k a j b m = elim (Option-cases (get k m)) [
    | inl e ↦ rw (e, remove_at) (ground (arith, ==_iff k a))
    | inr (inner, e) ↦
        rw (e, remove_at)
          (ground
            (arith, get₂-put_or_prune k a b (remove j inner) m, get-remove j b inner, ==_iff k a))
  ]

pub ruleset nested_laws = (map_laws, get₂-insert_at, get₂-put_or_prune, get₂-remove_at)

-- Every inner map holds a key once.
module _ {ℓ κ μ} {K : Type ℓ} {J : Type κ} {V : Type μ} ⦃e : Eq K⦄ ⦃f : Eq J⦄ where
  abbrev pub AreMaps : HashMap K (HashMap J V) → Type (ℓ ⊔ μ)
  AreMaps m = (k : K) → IsMap (unwrap_or (get k m) [])

  pub insert_at-AreMaps :
      (k : K) (j : J) (v : V) (m : HashMap K (HashMap J V))
      → AreMaps m
      → AreMaps (insert_at k j v m)
  unfolding insert_at
  insert_at-AreMaps k j v m h a = ground (
    arith,
    get-insert k a (insert j v (unwrap_or (get k m) [])) m,
    insert-IsMap j v (unwrap_or (get k m) []) (h k),
    h a,
  )

  pub put_or_prune-AreMaps :
      (k : K) (inner : HashMap J V) (m : HashMap K (HashMap J V))
      → IsMap inner
      → AreMaps m
      → AreMaps (put_or_prune k inner m)
  unfolding put_or_prune
  put_or_prune-AreMaps k inner m h g a =
      ground (arith, get-insert k a inner m, get-remove k a m, g a)

  pub remove_at-AreMaps :
      (k : K) (j : J) (m : HashMap K (HashMap J V)) → AreMaps m → AreMaps (remove_at k j m)
  unfolding remove_at
  remove_at-AreMaps k j m h = elim (Option-cases (get k m)) [
    | inl e ↦ rw (e, remove_at) h
    | inr (inner, e) ↦
        rw (e, remove_at)
          (put_or_prune-AreMaps k (remove j inner) m (remove-IsMap j inner (ground (arith, h k))) h)
  ]

pub ruleset are_maps = (insert_at-AreMaps, put_or_prune-AreMaps, remove_at-AreMaps)
