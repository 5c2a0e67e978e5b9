-- ===== src/Config/Number.antt =====
-- `str::parse` of the unsigned integers and of `bool`.
use alert_distributor.Base.{
  ℕ, ◌+◌, ◌-◌, ◌*◌, ◌^◌, ◌<◌, ◌≡◌, Bool, true, false, ◌&&◌, Option, none, some, [], ◌∷◌, arith,
  nat_eq, list_eq, ◌==◌, leb, ltb, if◌then◌else◌,
}
use alert_distributor.Text.{Text, text}

-- The digits from the left; a value that does not fit is an error.
unfoldable pub parse_digits : ℕ → ℕ → Text → Option ℕ
parse_digits bits n [] = some n
parse_digits bits n (c ∷ s) =
    let m = n * 10 + (c - b'0') in
    let rest = parse_digits bits m s in
    if leb b'0' c && leb c b'9' && ltb m (2 ^ bits) then rest else none

-- A plus sign may stand in front.
unfoldable pub parse_unsigned : ℕ → Text → Option ℕ
unfolding parse_digits
parse_unsigned bits [] = none
parse_unsigned bits (c ∷ []) = if c == b'+' then none else parse_digits bits 0 (c ∷ [])
parse_unsigned bits (c ∷ d ∷ s) =
    if c == b'+' then parse_digits bits 0 (d ∷ s) else parse_digits bits 0 (c ∷ d ∷ s)

unfoldable pub parse_bool : Text → Option Bool
parse_bool s =
    if s == text "true" then some true else if s == text "false" then some false else none

parse_digits-bound :
    (bits n : ℕ) (s : Text) {r : ℕ} → n < 2 ^ bits → parse_digits bits n s ≡ some r → r < 2 ^ bits
unfolding parse_digits
parse_digits-bound bits n [] h e = ground arith
parse_digits-bound bits n (c ∷ s) {r} h e = ground (
  arith,
  λ (small : n * 10 + (c - b'0') < 2 ^ bits).
      parse_digits-bound bits (n * 10 + (c - b'0')) s {r = r} small,
)

pub parse_unsigned-bound :
    (bits : ℕ) (s : Text) {r : ℕ} → 0 < 2 ^ bits → parse_unsigned bits s ≡ some r → r < 2 ^ bits
unfolding parse_unsigned
parse_unsigned-bound bits [] h e = ground arith
parse_unsigned-bound bits (c ∷ []) {r} h e =
    ground (arith, parse_digits-bound bits 0 (c ∷ []) {r = r} h)
parse_unsigned-bound bits (c ∷ d ∷ s) {r} h e = ground (
  arith,
  parse_digits-bound bits 0 (d ∷ s) {r = r} h,
  parse_digits-bound bits 0 (c ∷ d ∷ s) {r = r} h,
)
