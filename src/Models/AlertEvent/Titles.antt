-- ===== src/Models/AlertEvent/Titles.antt =====
-- The title and the body of a notification: a name of white space alone counts as no name.
use mathlib.Core.List.{reverse, reverse-cons}
use alert_distributor.Base.{
  ℕ, ◌≡◌, refl, ◌∙◌, ap, Bool, true, false, ◌&&◌, Option, none, some, [], ◌∷◌, ◌++◌, arith,
  if◌then◌else◌, is_empty, unwrap_or, Bool-cases, inl, inr,
}
use alert_distributor.Text.{Text, trim, trim_start, is_whitespace}
use alert_distributor.Models.AlertEvent.{AlertEvent, trimmed, notification_title, notification_body}

abbrev pub is_blank : Text → Bool
is_blank [] = true
is_blank (c ∷ s) = is_whitespace c && is_blank s

is_blank-append : (s t : Text) → is_blank (s ++ t) ≡ (is_blank s && is_blank t)
is_blank-append [] t = refl
is_blank-append (c ∷ s) t = ground (arith, is_blank-append s t)

is_blank-reverse : (s : Text) → is_blank (reverse s) ≡ is_blank s
is_blank-reverse [] = refl
is_blank-reverse (c ∷ s) = ground (
  arith,
  ap is_blank (reverse-cons c s),
  is_blank-append (reverse s) (c ∷ []),
  is_blank-reverse s,
)

is_empty-trim_start : (s : Text) → is_empty (trim_start s) ≡ is_blank s
unfolding trim_start
is_empty-trim_start [] = refl
is_empty-trim_start (c ∷ s) = elim (Bool-cases (is_whitespace c)) [
  | inl e ↦ rw (e, trim_start) (is_empty-trim_start s)
  | inr e ↦ rw (e, trim_start) refl
]

is_blank-trim_start : (s : Text) → is_blank (trim_start s) ≡ is_blank s
unfolding trim_start
is_blank-trim_start [] = refl
is_blank-trim_start (c ∷ s) = elim (Bool-cases (is_whitespace c)) [
  | inl e ↦ rw (e, trim_start) (ground (arith, e, is_blank-trim_start s))
  | inr e ↦ rw (e, trim_start) (ground (arith, e))
]

is_empty-reverse : (s : Text) → is_empty (reverse s) ≡ is_empty s
is_empty-reverse [] = refl
is_empty-reverse (c ∷ s) = ap is_empty (reverse-cons c s) ∙ is_empty-append (reverse s) c
  where
    is_empty-append : (s : Text) (c : ℕ) → is_empty (s ++ c ∷ []) ≡ false
    is_empty-append [] c = refl
    is_empty-append (x ∷ s) c = refl

is_empty-trim : (s : Text) → is_empty (trim s) ≡ is_blank s
unfolding trim
is_empty-trim s =
    is_empty-reverse (trim_start (reverse (trim_start s)))
    ∙ (is_empty-trim_start (reverse (trim_start s))
        ∙ (is_blank-reverse (trim_start s) ∙ is_blank-trim_start s))

-- The text that stands for an optional name.
abbrev pub shown : Option Text → Text → Text
shown none fallback = fallback
shown (some s) fallback = if is_blank s then fallback else trim s

trimmed-shown :
    (name : Option Text) (fallback : Text) → unwrap_or (trimmed name) fallback ≡ shown name fallback
trimmed-shown none fallback = refl
trimmed-shown (some s) fallback = elim (Bool-cases (is_blank s)) [
  | inl e ↦ rw (is_empty-trim s, e) refl
  | inr e ↦ rw (is_empty-trim s, e) refl
]

module _ {Value Time : Type 0} (event : AlertEvent Value Time) where
  -- The title of a notification is the trimmed name of the alert, or the type of the alert when
  -- there is no name or it is blank; the body is the trimmed name of the unit, or empty when there
  -- is none or it is blank.
  pub notification_texts :
      (notification_title event ≡ shown event.alert_name event.alert_type)
      × (notification_body event ≡ shown event.unit_name [])
  unfolding notification_title notification_body
  notification_texts =
      (trimmed-shown event.alert_name event.alert_type, trimmed-shown event.unit_name [])
