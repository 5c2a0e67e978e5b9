-- ===== src/Config/Tests.antt =====
-- Environments that are accepted and refused.
use alert_distributor.Base.{arith, ◌≡◌, refl, Option, none, some, ◌∷◌, nat_eq, list_eq}
use alert_distributor.HashMap.{get}
use alert_distributor.Errors.{err, invalid_env_var}
use alert_distributor.Text.{Text, text}
use alert_distributor.Config.Number.{parse_unsigned, parse_digits, parse_bool}
use alert_distributor.Config.{
  unescape, get_required_var, required_number, optional_number, check_heartbeat, from_env,
  required_texts, optional_or,
}
use alert_distributor.Config.Decimal.{number_in, numbers_read}
use alert_distributor.Config.Blames.{Blames, from_env-Blames}
use alert_distributor.Config.Fixtures.{variables, env, config, accepted}
use alert_distributor.Config.Checks.{IsChecked, from_env-IsChecked}

from_env-IsChecked_example : IsChecked env config
from_env-IsChecked_example = from_env-IsChecked env config accepted

-- A timeout that is not longer than the interval is refused.
abbrev impatient : Text → Option Text
impatient name = get name ((text "WS_HEARTBEAT_TIMEOUT_SECS", text "15") ∷ variables)

refused : from_env impatient ≡ err (invalid_env_var (text "WS_HEARTBEAT_TIMEOUT_SECS"))
unfolding from_env required_texts required_number optional_number check_heartbeat get_required_var
    unescape get parse_unsigned parse_digits parse_bool
refused = refl

from_env-Blames_example : Blames impatient (invalid_env_var (text "WS_HEARTBEAT_TIMEOUT_SECS"))
from_env-Blames_example =
    from_env-Blames impatient (invalid_env_var (text "WS_HEARTBEAT_TIMEOUT_SECS")) refused

too_large : parse_unsigned 16 (text "65536") ≡ none
unfolding parse_unsigned parse_digits
too_large = refl

numbers_read_example :
    (required_number env (text "DB_PORT") 16
      ≡ number_in env (text "DB_PORT") 16 (env (text "DB_PORT")))
    × (optional_number env (text "DB_PORT") (text "5") 16
        ≡ number_in env (text "DB_PORT") 16 (some (optional_or env (text "DB_PORT") (text "5"))))
numbers_read_example = numbers_read env (text "DB_PORT") (text "5") 16 (omega arith)
