-- ===== src/HashMap/Distinct.antt =====
-- A map holds each key once: every operation keeps that, and iteration then agrees with `get`.
use alert_distributor.Base.{
  ◌+◌, ◌≡◌, Bool, false, Option, none, some, List, [], ◌∷◌, arith, Eq, ==_iff, ==_refl,
  if◌then◌else◌, contains, contains-cons, contains-nil, length,
}
use alert_distributor.HashMap.Lookup.{HashMap, get, remove, insert, get-remove, contains_key}

abbrev pub holds_for {κ} : {V : Type κ} → (V → Bool) → Option V → Bool
holds_for p none = false
holds_for p (some v) = p v

module _ {ℓ κ} {K : Type ℓ} {V : Type κ} ⦃e : Eq K⦄ where
  abbrev pub IsMap : HashMap K V → Type κ
  IsMap [] = Unit
  IsMap ((k, v) ∷ m) = (get k m ≡ none) × IsMap m

  pub remove-IsMap : (k : K) (m : HashMap K V) → IsMap m → IsMap (remove k m)
  unfolding remove
  remove-IsMap k [] h = tt
  remove-IsMap k ((j, v) ∷ m) h = ground (arith, get-remove k j m, remove-IsMap k m h.1)

  pub insert-IsMap : (k : K) (v : V) (m : HashMap K V) → IsMap m → IsMap (insert k v m)
  unfolding insert
  insert-IsMap k v m h = ground (arith, get-remove k k m, ==_refl k, remove-IsMap k m h)

  -- The keys of the entries that pass a test.
  abbrev pub keys_where : (K → V → Bool) → HashMap K V → List K
  keys_where p [] = []
  keys_where p ((k, v) ∷ m) = let rest = keys_where p m in if p k v then k ∷ rest else rest

  pub contains-keys_where-le :
      (k : K) (p : K → V → Bool) (m : HashMap K V)
      → get k m ≡ none
      → contains k (keys_where p m) ≡ false
  unfolding get
  contains-keys_where-le k p [] h = contains-nil k
  contains-keys_where-le k p ((j, v) ∷ m) h =
      ground (arith, contains-cons k j (keys_where p m), contains-keys_where-le k p m)

  -- A key is among them exactly when its own value passes.
  pub contains-keys_where :
      (k : K) (p : K → V → Bool) (m : HashMap K V)
      → IsMap m
      → contains k (keys_where p m) ≡ holds_for (p k) (get k m)
  unfolding get
  contains-keys_where k p [] h = contains-nil k
  contains-keys_where k p ((j, v) ∷ m) h = ground (
    arith,
    contains-cons k j (keys_where p m),
    contains-keys_where k p m h.1,
    contains-keys_where-le k p m,
    ==_iff j k,
  )

  -- How many entries a removal takes out.
  pub length-remove :
      (k : K) (m : HashMap K V)
      → IsMap m
      → length m ≡ length (remove k m) + (if contains_key k m then 1 else 0)
  unfolding get remove
  length-remove k [] h = ground arith
  length-remove k ((j, v) ∷ m) h = ground (arith, length-remove k m h.1, ==_iff j k)

  pub length-insert :
      (k : K) (v : V) (m : HashMap K V)
      → IsMap m
      → length (insert k v m) ≡ length m + (if contains_key k m then 0 else 1)
  unfolding insert
  length-insert k v m h = ground (arith, length-remove k m h)
