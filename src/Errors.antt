-- ===== src/Errors.antt =====
-- src/errors/mod.rs: the errors of the program. What the libraries report is kept as its text.
use alert_distributor.Base.{◌≡◌, refl, Option, none, some, ◌++◌}
use alert_distributor.Text.{Text, text}

pub data AppError : Type 0 where
  missing_env_var invalid_env_var invalid_log_filter logging_init : Text → AppError
  kafka jwt database invalid_uuid http_server control_plane_unavailable : Text → AppError

-- The texts of `thiserror`.
unfoldable pub display : AppError → Text
display (missing_env_var m) = text "missing required environment variable: " ++ m
display (invalid_env_var m) = text "invalid value for environment variable: " ++ m
display (invalid_log_filter m) = text "invalid log filter from RUST_LOG: " ++ m
display (logging_init m) = text "failed to initialize logger: " ++ m
display (kafka m) = text "kafka client error: " ++ m
display (jwt m) = text "jwt error: " ++ m
display (database m) = text "database error: " ++ m
display (invalid_uuid m) = text "invalid uuid value: " ++ m
display (http_server m) = text "http server error: " ++ m
display (control_plane_unavailable m) = text "control plane topic not readable: " ++ m

pub data AppResult (A : Type 0) : Type 0 where
  ok : A → AppResult A
  err : AppError → AppResult A

infixl 5 ◌>>=◌
-- `?`.
abbrev pub ◌>>=◌ : {A B : Type 0} → AppResult A → (A → AppResult B) → AppResult B
ok a >>= f = f a
err e >>= f = err e

-- `Option::ok_or_else`, and `map_err` where the error is replaced.
abbrev pub ok_or : {A : Type 0} → Option A → AppError → AppResult A
ok_or none e = err e
ok_or (some a) e = ok a

-- What the call of a library gives: a value, or its error as a text.
pub data Attempt (A : Type 0) : Type 0 where
  done : A → Attempt A
  failed : Text → Attempt A

-- `map_err`, and `?` where the error converts.
abbrev pub map_err : {A : Type 0} → (Text → AppError) → Attempt A → AppResult A
map_err f (done a) = ok a
map_err f (failed detail) = err (f detail)

pub bind_ok :
    {A B : Type 0} (m : AppResult A) (f : A → AppResult B) {b : B}
    → (m >>= f) ≡ ok b
    → (a : A) × (m ≡ ok a) × (f a ≡ ok b)
bind_ok (ok a) f h = (a, refl, h)
bind_ok (err e) f h = cc

pub ok_or-ok : {A : Type 0} (o : Option A) (e : AppError) {a : A} → ok_or o e ≡ ok a → o ≡ some a
ok_or-ok none e h = cc
ok_or-ok (some a) e h = cc

pub ok_injective : {A : Type 0} {a b : A} → ok a ≡ ok b → a ≡ b
ok_injective h = cc

-- What holds of every result of the rest holds of every result of the whole.
pub bind_gives :
    {A B : Type 0} {P : B → Type 0} (m : AppResult A) (f : A → AppResult B)
    → ((a : A) → m ≡ ok a → (b : B) → f a ≡ ok b → P b)
    → (b : B) → (m >>= f) ≡ ok b
    → P b
bind_gives (ok a) f h b e = h a refl b e
bind_gives (err x) f h b e = cc

-- A value has no error, and an error of the whole comes from its first part or from the rest.
pub ok-err : {A : Type 0} {a : A} {x : AppError} {P : Type 0} → ok a ≡ err x → P
ok-err h = absurd cc

pub bind_errs :
    {A B : Type 0} {P : AppError → Type 0} (m : AppResult A) (f : A → AppResult B)
    → ((x : AppError) → m ≡ err x → P x)
    → ((a : A) (x : AppError) → f a ≡ err x → P x)
    → (x : AppError) → (m >>= f) ≡ err x
    → P x
bind_errs (ok a) f first rest x e = rest a x e
bind_errs (err y) f first rest x e = first x cc

-- The same where the rest needs to know that the first part gave its value.
pub bind_errs_ok :
    {A B : Type 0} {P : AppError → Type 0} (m : AppResult A) (f : A → AppResult B)
    → ((x : AppError) → m ≡ err x → P x)
    → ((a : A) → m ≡ ok a → (x : AppError) → f a ≡ err x → P x)
    → (x : AppError) → (m >>= f) ≡ err x
    → P x
bind_errs_ok (ok a) f first rest x e = rest a refl x e
bind_errs_ok (err y) f first rest x e = first x cc
