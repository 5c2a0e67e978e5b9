-- ===== src/Sort/Unique.antt =====
-- Two sorted lists with the same elements are the same list.
use alert_distributor.Base.{
  ℕ, ◌≡◌, refl, ◌∙◌, ap, true, false, List, [], ◌∷◌, arith, Eq, ==_iff, ==_refl, contains, nat_eq,
  pair_eq, ltb,
}
use alert_distributor.Sort.{Ord, AllAbove, IsAscending, nat_ord, pair_ord}

module _ {ℓ} {A : Type ℓ} ⦃e : Eq A⦄ ⦃o : Ord A⦄ (irreflexive : (a : A) → o.less a a ≡ false) where
  AllAbove-contains :
      (x a : A) (ys : List A) → AllAbove x ys → contains a ys ≡ true → o.less x a ≡ true
  unfolding contains
  AllAbove-contains x a [] h k = ground arith
  AllAbove-contains x a (y ∷ ys) h k = ground (arith, AllAbove-contains x a ys h.1, ==_iff y a, h.0)

  contains-above : (x : A) (ys : List A) → AllAbove x ys → contains x ys ≡ false
  contains-above x ys h = ground (arith, AllAbove-contains x x ys h, irreflexive x)

  heads_equal :
      (x y : A) (xs ys : List A)
      → AllAbove x xs
      → AllAbove y ys
      → contains x (y ∷ ys) ≡ true
      → contains y (x ∷ xs) ≡ true
      → x ≡ y
  unfolding contains
  heads_equal x y xs ys h k p q = ground (
    arith,
    ==_iff x y,
    ==_iff y x,
    AllAbove-contains x y xs h,
    AllAbove-contains y x ys k,
    o.less_trans x y x,
    irreflexive x,
  )

  pub IsAscending-unique :
      (xs ys : List A)
      → IsAscending xs
      → IsAscending ys
      → ((a : A) → contains a xs ≡ contains a ys)
      → xs ≡ ys
  unfolding contains
  IsAscending-unique [] [] h k same = refl
  IsAscending-unique [] (y ∷ ys) h k same = ground (arith, same y, ==_refl y)
  IsAscending-unique (x ∷ xs) [] h k same = ground (arith, same x, ==_refl x)
  IsAscending-unique (x ∷ xs) (y ∷ ys) h k same =
      let equal =
        heads_equal x y xs ys h.0 k.0 (ground (arith, same x, ==_refl x))
          (ground (arith, same y, ==_refl y)) in
      let tails = IsAscending-unique xs ys h.1 k.1 (λ a. ground (
        arith,
        same a,
        equal,
        ==_iff x a,
        ==_iff y a,
        contains-above x xs h.0,
        contains-above y ys k.0,
      )) in
      ap (◌∷◌ x) tails ∙ ap (λ (z : A). z ∷ ys) equal

pub ltb_irreflexive : (a : ℕ) → ltb a a ≡ false
ltb_irreflexive a = ground arith

pub pair_irreflexive : (p : ℕ × ℕ) → pair_ord.less p p ≡ false
pair_irreflexive p = ground arith
