-- ===== src/Sns/Client.antt =====
-- src/sns/client.rs: the errors of a publish by their type, and the loop of attempts.
pub mod Attempts
mod Suite
use alert_distributor.Base.{
  ℕ, zero, suc, ◌+◌, ◌*◌, ◌%◌, Bool, true, false, not, ◌||◌, ◌++◌, Option, none, some, List, [],
  ◌∷◌, leb, if◌then◌else◌, unwrap_or, and_then,
}
use alert_distributor.Text.{Text, text, to_ascii_lowercase, contains_text}
use alert_distributor.Sns.Models.{
  SnsError, invalid_endpoint, throttled, auth_error, platform_disabled, network_error,
  unknown_error, is_retryable,
}
use alert_distributor.Sns.Metrics.{u64_mod}
use alert_distributor.Config.{AppConfig}
use alert_distributor.Errors.{AppResult, ok as app_ok}

-- The variants of the SDK's `PublishError` that the source names, and all others as one.
pub data Exception : Type 0 where
  endpoint_disabled not_found platform_application_disabled authorization_error invalid_security
        kms_access_denied kms_throttling internal_error other :
      Exception
  invalid_parameter : Option Text → Exception

pub record PublishError : Type 0 where
  pub exception : Exception
  pub code : Option Text
  pub message : Option Text

-- `SdkError`: what the service answered, or a failure on the way as its text.
pub data SdkError : Type 0 where
  service_error : PublishError → SdkError
  transport_error : Text → SdkError

abbrev pub is_some_and : Option Text → (Text → Bool) → Bool
is_some_and none test = false
is_some_and (some s) test = test s

-- `Option::or`.
abbrev pub or_else : Option Text → Option Text → Option Text
or_else none b = b
or_else (some a) b = some a

abbrev pub detail_of : PublishError → Text
detail_of e = unwrap_or e.code (text "?") ++ (text ": " ++ unwrap_or e.message [])

names_endpoint : Text → Bool
names_endpoint m = contains_text (text "endpoint") (to_ascii_lowercase m)

-- The last two arms of the match.
by_code : PublishError → SnsError
by_code e =
    if is_some_and e.code (contains_text (text "Throttl"))
    then throttled
    else unknown_error (detail_of e)

classify_exception : Exception → PublishError → SnsError
unfolding names_endpoint by_code
classify_exception endpoint_disabled e = invalid_endpoint (detail_of e)
classify_exception not_found e = invalid_endpoint (detail_of e)
classify_exception (invalid_parameter message) e =
    if is_some_and (or_else message e.message) names_endpoint
    then invalid_endpoint (detail_of e)
    else by_code e
classify_exception platform_application_disabled e = platform_disabled (detail_of e)
classify_exception authorization_error e = auth_error (detail_of e)
classify_exception invalid_security e = auth_error (detail_of e)
classify_exception kms_access_denied e = auth_error (detail_of e)
classify_exception kms_throttling e = throttled
classify_exception internal_error e = network_error (detail_of e)
classify_exception other e = by_code e

unfoldable pub classify_publish_error : PublishError → SnsError
unfolding classify_exception
classify_publish_error e = classify_exception e.exception e

unfoldable pub classify_sdk_error : SdkError → SnsError
unfolding classify_publish_error
classify_sdk_error (service_error e) = classify_publish_error e
classify_sdk_error (transport_error context) = network_error context

pub data Result (Output : Type 0) : Type 0 where
  ok : Output → Result Output
  err : SnsError → Result Output

-- What the SDK answers to one attempt.
pub data Answer (Output : Type 0) : Type 0 where
  sent : Output → Answer Output
  refused : SdkError → Answer Output

module _ {Output : Type 0} where
  abbrev pub slept : ℕ → Option (Result Output × List ℕ) → Option (Result Output × List ℕ)
  slept delay none = none
  slept delay (some (r, delays)) = some (r, delay ∷ delays)

  -- The loop of `publish_to_endpoint`, on fuel: the result and the delays that it slept. The answer
  -- to an attempt depends on how many came before.
  unfoldable pub publish_loop :
      ℕ → (ℕ → Answer Output) → ℕ → ℕ → ℕ → Option (Result Output × List ℕ)
  publish_loop zero send max_retries retries delay = none
  publish_loop (suc fuel) send max_retries retries delay =
      let rest = publish_loop fuel send max_retries (retries + 1) (delay * 2 % u64_mod) in
      elim (send retries) [
        | sent output ↦ some (ok output, [])
        | refused sdk_err ↦
            let sns_error = classify_sdk_error sdk_err in
            if not (is_retryable sns_error) || leb max_retries retries
            then some (err sns_error, [])
            else slept delay rest
      ]

  unfoldable pub publish_to_endpoint : (ℕ → Answer Output) → ℕ → Option (Result Output × List ℕ)
  publish_to_endpoint send max_retries = publish_loop (suc max_retries) send max_retries 0 100

pub record SnsClient : Type 0 where
  pub region : Text
  pub max_retries : ℕ

-- `SnsClient::new`: the SDK loads its settings without an error.
unfoldable pub new_client : AppConfig → AppResult SnsClient
new_client config =
    app_ok (record { region = config.aws_region; max_retries = config.sns_retry_count })
