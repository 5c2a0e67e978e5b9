-- ===== src/Config/Decimal.antt =====
-- What `str::parse` of an unsigned integer accepts, against the value of the digits.
use alert_distributor.Base.{
  ℕ, ◌+◌, ◌-◌, ◌*◌, ◌^◌, ◌≤◌, ◌<◌, ◌≡◌, refl, Bool, true, not, ◌&&◌, Option, none, some, [], ◌∷◌,
  arith, nat_eq, list_eq, ◌==◌, leb, ltb, is_empty, if◌then◌else◌, Bool-cases, Option-cases, ap,
  inl, inr,
}
use alert_distributor.Text.{Text}
use alert_distributor.Errors.{AppResult, err, ok_or, missing_env_var, invalid_env_var}
use alert_distributor.Config.{get_required_var, optional_or, required_number, optional_number}
use alert_distributor.Config.Number.{parse_digits, parse_unsigned}

abbrev pub is_digit : ℕ → Bool
is_digit c = leb b'0' c && leb c b'9'

abbrev pub all_digits : Text → Bool
all_digits [] = true
all_digits (c ∷ s) = is_digit c && all_digits s

-- The number that the digits write, behind those that write `n`.
abbrev pub value_from : ℕ → Text → ℕ
value_from n [] = n
value_from n (c ∷ s) = value_from (n * 10 + (c - b'0')) s

-- A plus sign is left out where something follows it.
abbrev pub signless : Text → Text
signless (c ∷ d ∷ s) = if c == b'+' then d ∷ s else c ∷ d ∷ s
signless s = s

abbrev pub number_of : ℕ → Text → Option ℕ
number_of bits s =
    if not (is_empty s) && all_digits s && ltb (value_from 0 s) (2 ^ bits)
    then some (value_from 0 s)
    else none

value_from-grows : (n : ℕ) (s : Text) → n ≤ value_from n s
value_from-grows n [] = omega arith
value_from-grows n (c ∷ s) = omega (arith, value_from-grows (n * 10 + (c - b'0')) s)

parse_digits-value :
    (bits n : ℕ) (s : Text)
    → n < 2 ^ bits
    → parse_digits bits n s
      ≡ (if all_digits s && ltb (value_from n s) (2 ^ bits) then some (value_from n s) else none)
unfolding parse_digits
parse_digits-value bits n [] h = ground arith
parse_digits-value bits n (c ∷ s) h =
    let m = n * 10 + (c - b'0') in
    elim (Bool-cases (ltb m (2 ^ bits))) [
      | inl e ↦ ground (arith, e, parse_digits-value bits m s (ground (arith, e)))
      | inr e ↦ ground (arith, e, value_from-grows m s)
    ]

-- Where 0 fits in the width, `parse_unsigned` accepts exactly a non-empty sequence of decimal
-- digits, with at most one plus sign in front, whose value fits in that many bits, and returns the
-- value.
parse_unsigned-number :
    (bits : ℕ) (s : Text) → 0 < 2 ^ bits → parse_unsigned bits s ≡ number_of bits (signless s)
unfolding parse_unsigned
parse_unsigned-number bits [] h = refl
parse_unsigned-number bits (c ∷ []) h = ground (arith, parse_digits-value bits 0 (c ∷ []) h)
parse_unsigned-number bits (c ∷ d ∷ s) h =
    ground (arith, parse_digits-value bits 0 (d ∷ s) h, parse_digits-value bits 0 (c ∷ d ∷ s) h)

module _ (env : Text → Option Text) where
  abbrev pub number_in : Text → ℕ → Option Text → AppResult ℕ
  number_in name bits none = err (missing_env_var name)
  number_in name bits (some value) = ok_or (number_of bits (signless value)) (invalid_env_var name)

  -- Where 0 fits in the width, a required variable and an optional one (with its default where it
  -- is missing) are read as numbers exactly when they are a non-empty sequence of decimal digits,
  -- with at most one plus sign in front, whose value fits in that many bits: the result is the
  -- value, else an error that names the variable, and a required variable that is missing is an
  -- error of its own.
  pub numbers_read :
      (name default : Text) (bits : ℕ)
      → 0 < 2 ^ bits
      → (required_number env name bits ≡ number_in name bits (env name))
        × (optional_number env name default bits
            ≡ number_in name bits (some (optional_or env name default)))
  unfolding required_number optional_number get_required_var
  numbers_read name default bits h = (
    elim (Option-cases (env name)) [
      | inl e ↦ ground (arith, e)
      | inr (value, e) ↦
          rw e (ap (λ n. ok_or n (invalid_env_var name)) (parse_unsigned-number bits value h))
    ],
    ap (λ n. ok_or n (invalid_env_var name))
        (parse_unsigned-number bits (optional_or env name default) h),
  )
