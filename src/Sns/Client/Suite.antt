-- ===== src/Sns/Client/Suite.antt =====
-- The tests of src/sns/client.rs, as Booleans. A builder sets the message of the exception alone;
-- `PublishError::generic` sets the code and the message.
use alert_distributor.Base.{
  ◌≡◌, refl, Bool, true, false, not, ◌&&◌, none, some, nat_eq, list_eq, ◌==◌,
}
use alert_distributor.Text.{Text, text, to_ascii_lowercase, contains_text}
use alert_distributor.Sns.Models.{
  SnsError, invalid_endpoint, platform_disabled, unknown_error, is_retryable, display,
}
use alert_distributor.Sns.Client.{
  Exception, endpoint_disabled, invalid_parameter, platform_application_disabled, other,
  PublishError, classify_publish_error,
}

abbrev built : Exception → PublishError
built exception = record { exception = exception; code = none; message = none }

abbrev generic : Text → Text → PublishError
generic code message = record { exception = other; code = some code; message = some message }

abbrev is_invalid_endpoint : SnsError → Bool
is_invalid_endpoint (invalid_endpoint msg) = true
is_invalid_endpoint _ = false

abbrev is_unknown : SnsError → Bool
is_unknown (unknown_error msg) = true
is_unknown _ = false

abbrev is_platform_disabled : SnsError → Bool
is_platform_disabled (platform_disabled msg) = true
is_platform_disabled _ = false

abbrev el_endpoint_deshabilitado_se_reconoce_por_su_tipo : Bool
el_endpoint_deshabilitado_se_reconoce_por_su_tipo =
    is_invalid_endpoint (classify_publish_error (built endpoint_disabled))

abbrev sin_endpoint : PublishError
sin_endpoint = built (
    invalid_parameter (
      some (
        text
          "Invalid parameter: TargetArn Reason: No endpoint found for the target arn specified")))

abbrev otro : PublishError
otro = built (invalid_parameter (some (text "Invalid parameter: Message too long")))

abbrev un_arn_que_ya_no_existe_es_endpoint_invalido_y_otro_parametro_no : Bool
un_arn_que_ya_no_existe_es_endpoint_invalido_y_otro_parametro_no =
    is_invalid_endpoint (classify_publish_error sin_endpoint)
    && is_unknown (classify_publish_error otro)

abbrev la_aplicacion_deshabilitada_no_desactiva_dispositivos : Bool
la_aplicacion_deshabilitada_no_desactiva_dispositivos =
    let clasificado = classify_publish_error (built platform_application_disabled) in
    is_platform_disabled clasificado && not (is_retryable clasificado)

abbrev el_throttling_se_reintenta_y_lo_desconocido_no : Bool
el_throttling_se_reintenta_y_lo_desconocido_no =
    let throttling = classify_publish_error (generic (text "Throttling") (text "Rate exceeded")) in
    let clasificado = classify_publish_error (generic (text "SomethingNew") (text "x")) in
    is_retryable throttling
    && not (is_retryable clasificado)
    && display clasificado == text "Unknown: SomethingNew: x"

-- All pass.
pass :
    (el_endpoint_deshabilitado_se_reconoce_por_su_tipo ≡ true)
    × (un_arn_que_ya_no_existe_es_endpoint_invalido_y_otro_parametro_no ≡ true)
    × (la_aplicacion_deshabilitada_no_desactiva_dispositivos ≡ true)
    × (el_throttling_se_reintenta_y_lo_desconocido_no ≡ true)
unfolding classify_publish_error is_retryable display to_ascii_lowercase contains_text
pass = (refl, refl, refl, refl)
