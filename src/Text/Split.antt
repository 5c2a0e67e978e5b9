-- ===== src/Text/Split.antt =====
-- `str::split` by a character, and the segments that `next_back` and `nth` take.
use alert_distributor.Base.{
  ℕ, zero, suc, ◌≡◌, refl, false, Option, none, some, List, [], ◌∷◌, ◌++◌, arith, nat_eq, nat_beq,
  contains, contains-cons, if◌then◌else◌, Bool-cases, inl, inr,
}

-- A character before the first segment.
abbrev pub extend_first : ℕ → List (List ℕ) → List (List ℕ)
extend_first c [] = (c ∷ []) ∷ []
extend_first c (x ∷ xs) = (c ∷ x) ∷ xs

unfoldable pub split : ℕ → List ℕ → List (List ℕ)
split sep [] = [] ∷ []
split sep (c ∷ s) =
    let rest = split sep s in if nat_beq c sep then [] ∷ rest else extend_first c rest

unfoldable pub next_back : List (List ℕ) → Option (List ℕ)
next_back [] = none
next_back (x ∷ []) = some x
next_back (x ∷ y ∷ xs) = next_back (y ∷ xs)

abbrev pub nth : ℕ → List (List ℕ) → Option (List ℕ)
nth n [] = none
nth zero (x ∷ xs) = some x
nth (suc n) (x ∷ xs) = nth n xs

-- A segment without the separator, then the separator.
pub split-segment :
    (sep : ℕ) (a s : List ℕ) → contains sep a ≡ false → split sep (a ++ sep ∷ s) ≡ a ∷ split sep s
unfolding split
split-segment sep [] s h = ground arith
split-segment sep (c ∷ a) s h = ground (arith, split-segment sep a s, contains-cons sep c a)

pub split-whole : (sep : ℕ) (a : List ℕ) → contains sep a ≡ false → split sep a ≡ a ∷ []
unfolding split
split-whole sep [] h = refl
split-whole sep (c ∷ a) h = ground (arith, split-whole sep a, contains-cons sep c a)

last_segment :
    (sep : ℕ) (a b : List ℕ)
    → contains sep b ≡ false
    → (x y : List ℕ) × (ys : List (List ℕ)) × (split sep (a ++ sep ∷ b) ≡ x ∷ y ∷ ys)
      × (next_back (y ∷ ys) ≡ some b)
unfolding split next_back
last_segment sep [] b h = ([], b, [], ground (arith, split-whole sep b h), refl)
last_segment sep (c ∷ a) b h =
    let (x, y, ys, e, l) = last_segment sep a b h in
    elim (Bool-cases (nat_beq c sep)) [
      | inl hit ↦ ([], x, y ∷ ys, ground (arith, e), l)
      | inr miss ↦ (c ∷ x, y, ys, ground (arith, e), l)
    ]

-- Whatever stands before the last separator.
pub next_back-split :
    (sep : ℕ) (a b : List ℕ)
    → contains sep b ≡ false
    → next_back (split sep (a ++ sep ∷ b)) ≡ some b
unfolding next_back
next_back-split sep a b h = let (x, y, ys, e, l) = last_segment sep a b h in rw (e, next_back) l
