-- ===== src/Websocket/Handler/Access.antt =====
-- Who is let in, and what /health tells.
use alert_distributor.Base.{
  ℕ, ◌≡◌, refl, ◌∙◌, ap, sym, Bool, false, Option, none, some, List, [], ◌∷◌, ◌++◌, arith, is_empty,
  if◌then◌else◌, nat_eq, pair_eq, contains, Bool-cases, inl, inr,
}
use alert_distributor.Text.{Text}
use alert_distributor.Permissions.Cache.{State}
use alert_distributor.Permissions.Cache.Read.{units_for}
use alert_distributor.Permissions.Cache.Invariant.{Inv}
use alert_distributor.Permissions.Cache.Rule.{
  IsLocated, GrantsAgree, entitled, units_for-users_for_unit, users_for_unit-entitled,
}
use alert_distributor.Kafka.ControlPlane.{Serde}
use alert_distributor.Kafka.ControlPlane.Consumer.{Input, Consumer, run}
use alert_distributor.Kafka.ControlPlane.Consumer.Lag.{shows_readable, health-run}
use alert_distributor.Errors.{AppResult, ok, err}
use alert_distributor.Websocket.Auth.{AuthContext, JwtClaims, validate_bearer}
use alert_distributor.Websocket.Auth.Bearer.{Authorizes, validate_bearer_ok}
use alert_distributor.Websocket.Handler.{upgrade, ws_handler, health_handler, authorize, respond}

module _ (decode : Text → AppResult JwtClaims) (parse_uuid : Text → Option ℕ) where
  pub record Grants (auth_header : Option Text) (cache : State) (context : AuthContext)
      (units : List ℕ) : Type 0 where
    pub header : Text
    pub present : auth_header ≡ some header
    pub authorized : Authorizes decode parse_uuid header context
    pub subscribed : units ≡ units_for cache context.organization_id context.user_id
    pub some_unit : is_empty units ≡ false

  respond-Grants :
      (r : AppResult AuthContext) (cache : State) (context : AuthContext) (units : List ℕ)
      → respond decode parse_uuid r cache ≡ upgrade context units
      → (r ≡ ok context)
        × (units ≡ units_for cache context.organization_id context.user_id)
        × (is_empty units ≡ false)
  unfolding respond authorize
  respond-Grants (err e) cache context units h = cc
  respond-Grants (ok c) cache context units h =
      elim (Bool-cases (is_empty (units_for cache c.organization_id c.user_id))) [
        | inl e ↦ ground (arith, e)
        | inr e ↦
            let (same, all) = upgrade_injective (rw (e, respond, authorize) at h) in
            (ap ok same, rw (← same) (sym all), rw (← all) e)
      ]
    where
      upgrade_injective :
          {c d : AuthContext} {xs ys : List ℕ} → upgrade c xs ≡ upgrade d ys → (c ≡ d) × (xs ≡ ys)
      upgrade_injective e = (cc, cc)

  -- An upgrade.
  pub ws_handler-Grants :
      (auth_header : Option Text) (cache : State) (context : AuthContext) (units : List ℕ)
      → ws_handler decode parse_uuid auth_header cache ≡ upgrade context units
      → Grants auth_header cache context units
  unfolding ws_handler
  ws_handler-Grants none cache context units h = cc
  ws_handler-Grants (some header) cache context units h =
      let (valid, units_e, some_unit) =
        respond-Grants (validate_bearer decode parse_uuid header) cache context units h in
      record {
        header = header;
        present = refl;
        authorized = (validate_bearer_ok decode parse_uuid header context).0 valid;
        subscribed = units_e;
        some_unit = some_unit;
      }

  -- When `ws_handler` upgrades a request, the header is a bearer token that decodes to the user and
  -- organization of the connection, and the connection is subscribed to a non-empty list of units;
  -- on a well-formed cache in which devices and grants name the organization of their unit, a unit
  -- is in that list exactly when the documented rule entitles the user.
  pub ws_handler-entitled :
      (auth_header : Option Text) (cache : State) (context : AuthContext) (units : List ℕ)
      (unit : ℕ)
      → Inv cache
      → IsLocated cache
      → GrantsAgree cache
      → ws_handler decode parse_uuid auth_header cache ≡ upgrade context units
      → Grants auth_header cache context units
        × (contains unit units ≡ entitled cache context.organization_id context.user_id unit)
  ws_handler-entitled auth_header cache context units unit v l g h =
      let granted = ws_handler-Grants auth_header cache context units h in
      (
        granted,
        ap (contains unit) granted.subscribed
            ∙ (units_for-users_for_unit cache context.organization_id context.user_id unit v l g
                ∙ users_for_unit-entitled cache unit context.organization_id context.user_id v l),
      )

-- After any inputs to the reader of the control plane, /health answers 200 when the last one showed
-- that the topic can be read, and 503 when it did not.
pub health_handler-run :
    (serde : Serde) (inputs : List Input) (i : Input) (c : Consumer) (cache : State)
    → (health_handler (run serde (inputs ++ i ∷ []) c).health cache).status
      ≡ (if shows_readable i (run serde inputs c).next then 200 else 503)
unfolding health_handler
health_handler-run serde inputs i c cache =
    ap (λ (ok : Bool). if ok then 200 else 503) (health-run serde inputs i c)
