-- ===== src/Sns/Models/Channel.antt =====
-- The channel that an ARN of SNS names, and who may use it.
use alert_distributor.Base.{
  ◌≡◌, refl, true, false, ◌∷◌, ◌++◌, arith, nat_eq, list_eq, ==_iff, contains,
}
use alert_distributor.Text.{Text, text, to_ascii_lowercase}
use alert_distributor.Text.Split.{split-segment, next_back-split}
use alert_distributor.Sns.Models.{
  UserDevice, channel_of, arn_channel, endpoint_channel, is_gcm, is_known,
  endpoint_is_supported_for_platform,
}

-- An endpoint `<arn>:<resource>/<kind>/<path>`, with no colon behind the arn and no slash in the
-- resource and the kind, is of the channel that the kind names.
pub endpoint_channel-arn :
    (d : UserDevice) (arn resource kind path : Text)
    → d.endpoint_arn ≡ arn ++ (b':' ∷ (resource ++ (b'/' ∷ (kind ++ (b'/' ∷ path)))))
    → contains b':' (resource ++ (b'/' ∷ (kind ++ (b'/' ∷ path)))) ≡ false
    → contains b'/' resource ≡ false
    → contains b'/' kind ≡ false
    → endpoint_channel d ≡ channel_of kind
unfolding endpoint_channel
endpoint_channel-arn d arn resource kind path e colon r k =
    rw
      (
        e,
        next_back-split b':' arn (resource ++ (b'/' ∷ (kind ++ (b'/' ∷ path)))) colon,
        arn_channel,
        split-segment b'/' resource (kind ++ (b'/' ∷ path)) r,
        split-segment b'/' kind path k,
      )
      refl

-- An endpoint that is supported for the platform of its device has a known channel, and an APNs
-- channel only when the platform is iOS.
pub supported_channels :
    (d : UserDevice)
    → endpoint_is_supported_for_platform d ≡ true
    → (is_known (endpoint_channel d) ≡ true)
      × (is_gcm (endpoint_channel d) ≡ false → to_ascii_lowercase d.platform ≡ text "ios")
unfolding endpoint_is_supported_for_platform
supported_channels d h =
    let p = to_ascii_lowercase d.platform in
    ground (arith, ==_iff p (text "android"), ==_iff p (text "ios"))
