-- ===== src/Sns/Message/Payload.antt =====
-- What a receiver reads from the payload.
use alert_distributor.Base.{
  ◌≡◌, refl, true, Option, none, some, List, [], ◌∷◌, ◌==◌, nat_eq, list_eq, if◌then◌else◌,
  and_then,
}
use alert_distributor.Text.{Text, text}
use alert_distributor.Sns.Models.{EndpointChannel, gcm, apns, apns_sandbox, unknown, is_known}
use alert_distributor.Sns.Message.{
  Json, Fields, string, number, object, finish, field, SnsMessage, apns_payload, gcm_payload,
  sns_payload, alert_fields, to_json_payload,
}

-- A field of an object.
abbrev pub field_of : Text → Fields → Option Json
field_of key finish = none
field_of key (field k v rest) = let found = field_of key rest in if k == key then some v else found

abbrev pub at : List Text → Option Json → Option Json
at [] j = j
at (key ∷ keys) none = none
at (key ∷ keys) (some (string s)) = none
at (key ∷ keys) (some (number n)) = none
at (key ∷ keys) (some (object fields)) = at keys (field_of key fields)

-- The path to the text that is shown, within the payload of a channel.
abbrev pub shown_at : EndpointChannel → List Text
shown_at gcm = text "fcmV1Message" ∷ text "message" ∷ text "notification" ∷ []
shown_at _ = text "aps" ∷ text "alert" ∷ []

abbrev pub channel_key : EndpointChannel → Text
channel_key gcm = text "GCM"
channel_key apns = text "APNS"
channel_key _ = text "APNS_SANDBOX"

-- The text that a person sees.
abbrev pub alert_of : SnsMessage → Json
alert_of m =
    object (field (text "title") (string m.title) (field (text "body") (string m.body) finish))

abbrev pub text_of : Json → Option Text
text_of (string s) = some s
text_of (number n) = none
text_of (object fields) = none

-- What a device of the channel shows of a payload: it parses the payload, takes the string of its
-- channel, parses that, and looks up what is shown.
abbrev pub shown_on : (Text → Option Json) → EndpointChannel → Text → Option Json
shown_on from_str channel payload = and_then (from_str payload) λ outer.
    and_then (at (channel_key channel ∷ []) (some outer)) λ entry.
      and_then (text_of entry)
        λ written. and_then (from_str written) λ inner. at (shown_at channel) (some inner)

module _ (to_string : Json → Text) (from_str : Text → Option Json) where
  -- Where the payload for SNS and the payloads of the channels are read back as they were written,
  -- a device of each of the channels GCM, APNS and APNS_SANDBOX, which parses the payload, takes
  -- the string of its channel, parses that and looks up what is shown, shows the title and the body
  -- of the message.
  pub sns_payload_carries :
      (m : SnsMessage) (channel : EndpointChannel)
      → is_known channel ≡ true
      → from_str (to_string (sns_payload to_string m)) ≡ some (sns_payload to_string m)
      → from_str (to_string (apns_payload m)) ≡ some (apns_payload m)
      → from_str (to_string (gcm_payload m)) ≡ some (gcm_payload m)
      → shown_on from_str channel (to_json_payload to_string m) ≡ some (alert_of m)
  unfolding sns_payload apns_payload gcm_payload alert_fields to_json_payload
  sns_payload_carries m gcm known whole apple google = rw (to_json_payload, whole) (rw google refl)
  sns_payload_carries m apns known whole apple google = rw (to_json_payload, whole) (rw apple refl)
  sns_payload_carries m apns_sandbox known whole apple google =
      rw (to_json_payload, whole) (rw apple refl)
  sns_payload_carries m unknown known whole apple google = cc
