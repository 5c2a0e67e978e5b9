-- ===== src/Websocket/Registry/Index.antt =====
-- What an index holds under a key after a push or a removal.
use alert_distributor.Base.{
  ℕ, ◌≡◌, refl, true, false, ◌&&◌, ◌||◌, not, List, [], ◌∷◌, ◌++◌, arith, Eq, ◌==◌, ==_iff, nat_eq,
  nat_beq, filter, is_empty, if◌then◌else◌, is_some, contains, contains-nil, contains-cons,
  contains-append, contains-filter, Option-cases, inl, inr,
}
use alert_distributor.HashMap.{HashMap, get, get-insert, get-remove}
use alert_distributor.Websocket.Registry.{ids_at, push_at, retain_at, push_all, retain_all}

is_empty-eq : {A : Type 0} (l : List A) → is_empty l ≡ true → l ≡ []
is_empty-eq [] h = refl
is_empty-eq (x ∷ l) h = cc

append-is_empty : (l : List ℕ) (id : ℕ) → is_empty (l ++ id ∷ []) ≡ false
append-is_empty [] id = refl
append-is_empty (x ∷ l) id = refl

module _ {K : Type 0} ⦃e : Eq K⦄ where
  abbrev pub HasNoEmpty : HashMap K (List ℕ) → Type 0
  HasNoEmpty m = (k : K) → is_some (get k m) ≡ not (is_empty (ids_at k m))

  ids_at-push_at :
      (k j : K) (id : ℕ) (m : HashMap K (List ℕ))
      → ids_at j (push_at k id m) ≡ (if k == j then ids_at j m ++ id ∷ [] else ids_at j m)
  unfolding push_at
  ids_at-push_at k j id m = ground (arith, get-insert k j (ids_at k m ++ id ∷ []) m, ==_iff k j)

  ids_at-retain_at :
      (k j : K) (id : ℕ) (m : HashMap K (List ℕ))
      → ids_at j (retain_at k id m)
        ≡ (if k == j then filter (λ x. not (nat_beq x id)) (ids_at j m) else ids_at j m)
  unfolding retain_at
  ids_at-retain_at k j id m = elim (Option-cases (get k m)) [
    | inl e ↦ rw (e, retain_at) (ground (arith, e, ==_iff k j))
    | inr (ids, e) ↦
        rw (e, retain_at)
          (ground (
            arith,
            e,
            ==_iff k j,
            get-insert k j (filter (λ x. not (nat_beq x id)) ids) m,
            get-remove k j m,
            is_empty-eq (filter (λ x. not (nat_beq x id)) ids),
          ))
  ]

  pub contains-push_at :
      (k j : K) (id x : ℕ) (m : HashMap K (List ℕ))
      → contains x (ids_at j (push_at k id m)) ≡ (k == j && nat_beq id x || contains x (ids_at j m))
  contains-push_at k j id x m = ground (
    arith,
    ids_at-push_at k j id m,
    contains-append x (ids_at j m) (id ∷ []),
    contains-cons x id [],
    contains-nil x,
  )

  pub contains-retain_at :
      (k j : K) (id x : ℕ) (m : HashMap K (List ℕ))
      → contains x (ids_at j (retain_at k id m))
        ≡ (not (k == j && nat_beq x id) && contains x (ids_at j m))
  contains-retain_at k j id x m =
      ground
        (arith, ids_at-retain_at k j id m, contains-filter x (λ x. not (nat_beq x id)) (ids_at j m))

  pub contains-push_all :
      (ks : List K) (j : K) (id x : ℕ) (m : HashMap K (List ℕ))
      → contains x (ids_at j (push_all ks id m))
        ≡ (contains j ks && nat_beq id x || contains x (ids_at j m))
  unfolding push_all
  contains-push_all [] j id x m = ground (arith, contains-nil j)
  contains-push_all (k ∷ ks) j id x m = ground (
    arith,
    contains-push_all ks j id x (push_at k id m),
    contains-push_at k j id x m,
    contains-cons j k ks,
  )

  pub contains-retain_all :
      (ks : List K) (j : K) (id x : ℕ) (m : HashMap K (List ℕ))
      → contains x (ids_at j (retain_all ks id m))
        ≡ (not (contains j ks && nat_beq x id) && contains x (ids_at j m))
  unfolding retain_all
  contains-retain_all [] j id x m = ground (arith, contains-nil j)
  contains-retain_all (k ∷ ks) j id x m = ground (
    arith,
    contains-retain_all ks j id x (retain_at k id m),
    contains-retain_at k j id x m,
    contains-cons j k ks,
  )

  pub push_at-HasNoEmpty :
      (k : K) (id : ℕ) (m : HashMap K (List ℕ)) → HasNoEmpty m → HasNoEmpty (push_at k id m)
  unfolding push_at
  push_at-HasNoEmpty k id m h j =
      ground (arith, get-insert k j (ids_at k m ++ id ∷ []) m, append-is_empty (ids_at k m) id, h j)

  pub retain_at-HasNoEmpty :
      (k : K) (id : ℕ) (m : HashMap K (List ℕ)) → HasNoEmpty m → HasNoEmpty (retain_at k id m)
  unfolding retain_at
  retain_at-HasNoEmpty k id m h j = elim (Option-cases (get k m)) [
    | inl e ↦ rw (e, retain_at) (h j)
    | inr (ids, e) ↦
        rw (e, retain_at)
          (ground
            (arith, h j, get-insert k j (filter (λ x. not (nat_beq x id)) ids) m, get-remove k j m))
  ]

  pub push_all-HasNoEmpty :
      (ks : List K) (id : ℕ) (m : HashMap K (List ℕ)) → HasNoEmpty m → HasNoEmpty (push_all ks id m)
  unfolding push_all
  push_all-HasNoEmpty [] id m h = h
  push_all-HasNoEmpty (k ∷ ks) id m h =
      push_all-HasNoEmpty ks id (push_at k id m) (push_at-HasNoEmpty k id m h)

  pub retain_all-HasNoEmpty :
      (ks : List K) (id : ℕ) (m : HashMap K (List ℕ))
      → HasNoEmpty m
      → HasNoEmpty (retain_all ks id m)
  unfolding retain_all
  retain_all-HasNoEmpty [] id m h = h
  retain_all-HasNoEmpty (k ∷ ks) id m h =
      retain_all-HasNoEmpty ks id (retain_at k id m) (retain_at-HasNoEmpty k id m h)
