-- ===== src/Sort.antt =====
-- `sort_unstable` of a vector whose elements are totally ordered, by insertion.
pub mod Unique
use alert_distributor.Base.{
  ℕ, ◌≡◌, ◌∙◌, Bool, true, false, ◌&&◌, ◌||◌, List, [], ◌∷◌, arith, Eq, ◌==◌, ==_iff, nat_eq,
  pair_eq, if◌then◌else◌, ltb, contains,
}

-- What `Ord` promises, read through `<`.
pub record Ord {ℓ} (A : Type ℓ) ⦃e : Eq A⦄ : Type ℓ where
  pub less : A → A → Bool
  pub less_trans : (a b c : A) → less a b ≡ true → less b c ≡ true → less a c ≡ true
  pub less_total : (a b : A) → less a b ≡ false → (a == b) ≡ false → less b a ≡ true

pub ltb_trans : (a b c : ℕ) → ltb a b ≡ true → ltb b c ≡ true → ltb a c ≡ true
ltb_trans a b c h k = ground arith

pub ltb_total : (a b : ℕ) → ltb a b ≡ false → (a == b) ≡ false → ltb b a ≡ true
ltb_total a b h k = ground arith

instance abbrev pub nat_ord : Ord ℕ
nat_ord = record { less = ltb; less_trans = ltb_trans; less_total = ltb_total }

-- Pairs are compared from the left.
abbrev pub pair_less : ℕ × ℕ → ℕ × ℕ → Bool
pair_less p q = ltb p.0 q.0 || (p.0 == q.0 && ltb p.1 q.1)

pub pair_less_trans :
    (p q r : ℕ × ℕ) → pair_less p q ≡ true → pair_less q r ≡ true → pair_less p r ≡ true
pair_less_trans p q r h k = ground arith

pub pair_less_total :
    (p q : ℕ × ℕ) → pair_less p q ≡ false → (p == q) ≡ false → pair_less q p ≡ true
pair_less_total p q h k = ground arith

instance abbrev pub pair_ord : Ord (ℕ × ℕ)
pair_ord = record { less = pair_less; less_trans = pair_less_trans; less_total = pair_less_total }

module _ {ℓ} {A : Type ℓ} ⦃e : Eq A⦄ where
  abbrev pub IsDistinct : List A → Type 0
  IsDistinct [] = Unit
  IsDistinct (x ∷ xs) = (contains x xs ≡ false) × IsDistinct xs

module _ {ℓ} {A : Type ℓ} ⦃e : Eq A⦄ ⦃o : Ord A⦄ where
  insert_sorted : A → List A → List A
  insert_sorted x [] = x ∷ []
  insert_sorted x (y ∷ ys) =
      let rest = insert_sorted x ys in if o.less x y then x ∷ y ∷ ys else y ∷ rest

  unfoldable pub sort : List A → List A
  unfolding insert_sorted
  sort [] = []
  sort (x ∷ xs) = insert_sorted x (sort xs)

  contains-insert_sorted :
      (a x : A) (ys : List A) → contains a (insert_sorted x ys) ≡ (x == a || contains a ys)
  unfolding insert_sorted contains
  contains-insert_sorted a x [] = ground arith
  contains-insert_sorted a x (y ∷ ys) = ground (arith, contains-insert_sorted a x ys)

  pub contains-sort : (a : A) (xs : List A) → contains a (sort xs) ≡ contains a xs
  unfolding sort contains
  contains-sort a [] = ground arith
  contains-sort a (x ∷ xs) =
      ground (arith, contains-insert_sorted a x (sort xs), contains-sort a xs)

  abbrev pub AllAbove : A → List A → Type 0
  AllAbove x [] = Unit
  AllAbove x (y ∷ ys) = (o.less x y ≡ true) × AllAbove x ys

  -- In strictly rising order, so with no element twice.
  abbrev pub IsAscending : List A → Type 0
  IsAscending [] = Unit
  IsAscending (x ∷ xs) = AllAbove x xs × IsAscending xs

  AllAbove-trans : (x y : A) (zs : List A) → o.less x y ≡ true → AllAbove y zs → AllAbove x zs
  AllAbove-trans x y [] h k = tt
  AllAbove-trans x y (z ∷ zs) h k = (o.less_trans x y z h k.0, AllAbove-trans x y zs h k.1)

  AllAbove-insert_sorted :
      (z x : A) (ys : List A) → o.less z x ≡ true → AllAbove z ys → AllAbove z (insert_sorted x ys)
  unfolding insert_sorted
  AllAbove-insert_sorted z x [] h k = (h, tt)
  AllAbove-insert_sorted z x (y ∷ ys) h k = ground (arith, AllAbove-insert_sorted z x ys h k.1)

  insert_sorted-IsAscending :
      (x : A) (ys : List A)
      → contains x ys ≡ false
      → IsAscending ys
      → IsAscending (insert_sorted x ys)
  unfolding insert_sorted contains
  insert_sorted-IsAscending x [] h k = (tt, tt)
  insert_sorted-IsAscending x (y ∷ ys) h k = ground (
    arith,
    insert_sorted-IsAscending x ys,
    AllAbove-insert_sorted y x ys,
    AllAbove-trans x y ys,
    o.less_total x y,
    ==_iff x y,
    ==_iff y x,
  )

  pub sort-IsAscending : (xs : List A) → IsDistinct xs → IsAscending (sort xs)
  unfolding sort
  sort-IsAscending [] h = tt
  sort-IsAscending (x ∷ xs) h =
      insert_sorted-IsAscending x (sort xs) (contains-sort x xs ∙ h.0) (sort-IsAscending xs h.1)
