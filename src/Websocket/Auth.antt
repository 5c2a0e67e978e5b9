-- ===== src/Websocket/Auth.antt =====
-- src/websocket/auth.rs: who a bearer token stands for. The check of the signature and of `exp` is
-- jsonwebtoken's `decode`, an argument, and so is the parser of UUIDs.
pub mod Bearer
use alert_distributor.Base.{ℕ, Option, none, some, List, [], ◌∷◌}
use alert_distributor.Errors.{
  AppResult, ok, err, ◌>>=◌, ok_or, jwt, invalid_uuid, Attempt, done, failed, map_err,
}
use alert_distributor.Config.{AppConfig}
use alert_distributor.Text.{Text, text, strip_prefix}

pub record AuthContext : Type 0 where
  pub user_id : ℕ
  pub organization_id : ℕ

pub record JwtClaims : Type 0 where
  pub sub : Option Text
  pub user_id : Option Text
  pub organization_id : Option Text
  pub exp : ℕ

-- `Option::or_else` and `Option::or`.
abbrev pub or : {A : Type 0} → Option A → Option A → Option A
or none b = b
or (some a) b = some a

unfoldable pub bearer_token : Text → Option Text
bearer_token bearer =
    or (strip_prefix (text "Bearer ") bearer) (strip_prefix (text "bearer ") bearer)

module _ (decode : Text → AppResult JwtClaims) (parse_uuid : Text → Option ℕ) where
  unfoldable pub validate_bearer : Text → AppResult AuthContext
  unfolding bearer_token
  validate_bearer bearer = do
    token ← ok_or (bearer_token bearer) (jwt (text "missing Bearer token prefix"))
    claims ← decode token
    user_id ← ok_or (or claims.user_id claims.sub) (jwt (text "missing user_id claim"))
    organization_id ← ok_or claims.organization_id (jwt (text "missing organization_id claim"))
    user ← ok_or (parse_uuid user_id) (invalid_uuid (text "user_id claim"))
    organization ← ok_or (parse_uuid organization_id) (invalid_uuid (text "organization_id claim"))
    ok (record { user_id = user; organization_id = organization })

pub record JwtValidator (Key : Type 0) : Type 0 where
  pub decoding_key : Key
  pub algorithm : Text

-- `JwtValidator::new`, over jsonwebtoken's reader of keys.
unfoldable pub new_validator :
    {Key : Type 0} → (Text → Attempt Key) → AppConfig → AppResult (JwtValidator Key)
new_validator from_rsa_pem config = do
  decoding_key ← map_err jwt (from_rsa_pem config.jwt_public_key_pem)
  ok (record { decoding_key = decoding_key; algorithm = text "RS256" })
