-- ===== src/HashMap/Lookup.antt =====
-- The operations of a map, and what `get` finds after each of them.
use alert_distributor.Base.{
  ◌≡◌, refl, Bool, true, Option, none, some, List, [], ◌∷◌, arith, Eq, ◌==◌, ==_iff, if◌then◌else◌,
  is_some, is_empty, contains, contains-cons, contains-nil,
}

abbrev pub HashMap {ℓ κ} : Type ℓ → Type κ → Type (ℓ ⊔ κ)
HashMap K V = List (K × V)

abbrev pub HashSet {ℓ} : Type ℓ → Type ℓ
HashSet K = HashMap K (Unit {0})

module _ {ℓ κ} {K : Type ℓ} {V : Type κ} ⦃e : Eq K⦄ where
  unfoldable pub get : K → HashMap K V → Option V
  get k [] = none
  get k ((j, v) ∷ m) = if j == k then some v else get k m

  unfoldable pub remove : K → HashMap K V → HashMap K V
  remove k [] = []
  remove k ((j, v) ∷ m) = let rest = remove k m in if j == k then rest else (j, v) ∷ rest

  unfoldable pub insert : K → V → HashMap K V → HashMap K V
  unfolding remove
  insert k v m = (k, v) ∷ remove k m

  abbrev pub contains_key : K → HashMap K V → Bool
  contains_key k m = is_some (get k m)

  pub get-nil : (k : K) → get k [] ≡ none
  unfolding get
  get-nil k = refl

  pub get-remove :
      (k j : K) (m : HashMap K V) → get j (remove k m) ≡ (if k == j then none else get j m)
  unfolding get remove
  get-remove k j [] = ground arith
  get-remove k j ((i, v) ∷ m) = ground (arith, get-remove k j m, ==_iff i k, ==_iff i j, ==_iff k j)

  pub remove_absent : (k : K) (m : HashMap K V) → get k m ≡ none → remove k m ≡ m
  unfolding get remove
  remove_absent k [] h = refl
  remove_absent k ((j, v) ∷ m) h = ground (arith, remove_absent k m)

  pub get-insert :
      (k j : K) (v : V) (m : HashMap K V)
      → get j (insert k v m) ≡ (if k == j then some v else get j m)
  unfolding get insert
  get-insert k j v m = ground (arith, get-remove k j m)

  pub get-is_empty : (k : K) (m : HashMap K V) → is_empty m ≡ true → get k m ≡ none
  unfolding get
  get-is_empty k [] h = refl
  get-is_empty k (x ∷ m) h = cc

  -- The keys, in the order of iteration.
  abbrev pub keys : HashMap K V → List K
  keys [] = []
  keys ((k, v) ∷ m) = k ∷ keys m

  pub contains-keys : (k : K) (m : HashMap K V) → contains k (keys m) ≡ contains_key k m
  unfolding get
  contains-keys k [] = contains-nil k
  contains-keys k ((j, v) ∷ m) = ground (arith, contains-cons k j (keys m), contains-keys k m)

pub ruleset map_laws = (get-nil, get-remove, get-insert)
