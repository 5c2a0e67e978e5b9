-- ===== src/Sns/Models.antt =====
-- src/sns/models.rs: a person's mobile device, the channel of its endpoint, and the errors of SNS.
pub mod Channel
use alert_distributor.Base.{
  ℕ, suc, zero, Bool, true, false, ◌||◌, Option, none, some, List, [], ◌++◌, nat_eq, list_eq, ◌==◌,
  if◌then◌else◌,
}
use alert_distributor.Text.{Text, text, to_ascii_lowercase}
use alert_distributor.Text.Split.{split, next_back, nth}

pub record UserDevice : Type 0 where
  pub id : ℕ
  pub user_id : ℕ
  pub device_token : Text
  pub platform : Text
  pub endpoint_arn : Text
  pub is_active : Bool

pub data EndpointChannel : Type 0 where
  gcm apns apns_sandbox unknown : EndpointChannel

-- `match kind`.
unfoldable pub channel_of : Text → EndpointChannel
channel_of kind =
    if kind == text "GCM"
    then gcm
    else if kind == text "APNS"
    then apns
    else if kind == text "APNS_SANDBOX"
    then apns_sandbox
    else unknown

resource_channel : Option Text → EndpointChannel
resource_channel none = unknown
resource_channel (some kind) = channel_of kind

arn_channel : Option Text → EndpointChannel
unfolding resource_channel
arn_channel none = unknown
arn_channel (some resource) = resource_channel (nth 1 (split b'/' resource))

unfoldable pub endpoint_channel : UserDevice → EndpointChannel
unfolding arn_channel
endpoint_channel d = arn_channel (next_back (split b':' d.endpoint_arn))

abbrev pub is_gcm : EndpointChannel → Bool
is_gcm gcm = true
is_gcm _ = false

abbrev pub is_known : EndpointChannel → Bool
is_known unknown = false
is_known _ = true

unfoldable pub endpoint_is_supported_for_platform : UserDevice → Bool
endpoint_is_supported_for_platform d =
    let platform = to_ascii_lowercase d.platform in
    if platform == text "android"
    then is_gcm (endpoint_channel d)
    else if platform == text "ios"
    then is_known (endpoint_channel d)
    else false

pub data SnsError : Type 0 where
  invalid_endpoint : Text → SnsError
  throttled : SnsError
  auth_error platform_disabled network_error unknown_error : Text → SnsError

-- Only what is transient deserves another attempt.
unfoldable pub is_retryable : SnsError → Bool
is_retryable throttled = true
is_retryable (network_error detail) = true
is_retryable _ = false

-- `Display`.
unfoldable pub display : SnsError → Text
display (invalid_endpoint msg) = text "InvalidEndpoint: " ++ msg
display throttled = text "Throttled"
display (auth_error msg) = text "AuthError: " ++ msg
display (platform_disabled msg) = text "PlatformDisabled: " ++ msg
display (network_error msg) = text "NetworkError: " ++ msg
display (unknown_error msg) = text "Unknown: " ++ msg
