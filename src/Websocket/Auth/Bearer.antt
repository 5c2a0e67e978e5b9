-- ===== src/Websocket/Auth/Bearer.antt =====
-- Exactly which headers are accepted, and for whom.
use alert_distributor.Base.{
  ℕ, ◌≡◌, refl, ◌∙◌, ap, ◌⊎◌, inl, inr, ◌↔◌, Option, none, some, [], ◌∷◌, ◌++◌, arith, nat_beq,
  nat_eq, Option-cases, Bool-cases,
}
use alert_distributor.Text.{Text, text, strip_prefix}
use alert_distributor.Errors.{AppResult, ok, ok_or, bind_ok, ok_or-ok, ok_injective}
use alert_distributor.Websocket.Auth.{AuthContext, JwtClaims, or, bearer_token, validate_bearer}

pub strip_prefix-some : (p s : Text) {t : Text} → strip_prefix p s ≡ some t → s ≡ p ++ t
unfolding strip_prefix
strip_prefix-some [] s h = cc
strip_prefix-some (c ∷ p) [] h = cc
strip_prefix-some (c ∷ p) (d ∷ s) {t} h = elim (Bool-cases (nat_beq c d)) [
  | inl e ↦ ground (arith, e, strip_prefix-some p s {t = t})
  | inr e ↦ ground (arith, e)
]

pub strip_prefix-append : (p t : Text) → strip_prefix p (p ++ t) ≡ some t
unfolding strip_prefix
strip_prefix-append [] t = refl
strip_prefix-append (c ∷ p) t = ground (arith, strip_prefix-append p t)

bearer_token_iff :
    (bearer token : Text)
    → (bearer_token bearer ≡ some token)
      ↔ ((bearer ≡ text "Bearer " ++ token) ⊎ (bearer ≡ text "bearer " ++ token))
unfolding bearer_token strip_prefix
bearer_token_iff bearer token = (forward, backward)
  where
    forward :
        bearer_token bearer ≡ some token
        → (bearer ≡ text "Bearer " ++ token) ⊎ (bearer ≡ text "bearer " ++ token)
    forward h = elim (Option-cases (strip_prefix (text "Bearer ") bearer)) [
      | inl e ↦ inr (strip_prefix-some (text "bearer ") bearer (ground (arith, e)))
      | inr (t, e) ↦ inl (strip_prefix-some (text "Bearer ") bearer (ground (arith, e)))
    ]

    backward :
        ((bearer ≡ text "Bearer " ++ token) ⊎ (bearer ≡ text "bearer " ++ token))
        → bearer_token bearer ≡ some token
    backward (inl e) = rw e (ground (arith, strip_prefix-append (text "Bearer ") token))
    backward (inr e) = rw e (ground (arith, strip_prefix-append (text "bearer ") token))

or-some :
    {A : Type 0} (a b : Option A) {c : A}
    → or a b ≡ some c
    → (a ≡ some c) ⊎ ((a ≡ none) × (b ≡ some c))
or-some none b h = inr (refl, h)
or-some (some a) b h = inl h

module _ (decode : Text → AppResult JwtClaims) (parse_uuid : Text → Option ℕ) where
  -- The header carries a token that decodes to claims, whose user (or, without one, subject) and
  -- organization are the UUIDs of the context.
  pub record Authorizes (bearer : Text) (context : AuthContext) : Type 0 where
    pub token : Text
    pub claims : JwtClaims
    pub user : Text
    pub organization : Text
    pub scheme : (bearer ≡ text "Bearer " ++ token) ⊎ (bearer ≡ text "bearer " ++ token)
    pub decoded : decode token ≡ ok claims
    pub user_claim :
        (claims.user_id ≡ some user) ⊎ ((claims.user_id ≡ none) × (claims.sub ≡ some user))
    pub organization_claim : claims.organization_id ≡ some organization
    pub user_id : parse_uuid user ≡ some context.user_id
    pub organization_id : parse_uuid organization ≡ some context.organization_id

  validated-Authorizes :
      (bearer : Text) (context : AuthContext)
      → validate_bearer decode parse_uuid bearer ≡ ok context
      → Authorizes bearer context
  unfolding validate_bearer
  validated-Authorizes bearer context h =
      let (token, t, h₁) = bind_ok (ok_or (bearer_token bearer) _) _ h in
      let (claims, c, h₂) = bind_ok (decode token) _ h₁ in
      let (user, u, h₃) = bind_ok (ok_or (or claims.user_id claims.sub) _) _ h₂ in
      let (organization, o, h₄) = bind_ok (ok_or claims.organization_id _) _ h₃ in
      let (user', pu, h₅) = bind_ok (ok_or (parse_uuid user) _) _ h₄ in
      let (organization', po, h₆) = bind_ok (ok_or (parse_uuid organization) _) _ h₅ in
      record {
        token = token;
        claims = claims;
        user = user;
        organization = organization;
        scheme = (bearer_token_iff bearer token).0 (ok_or-ok (bearer_token bearer) _ t);
        decoded = c;
        user_claim =
            or-some claims.user_id claims.sub (ok_or-ok (or claims.user_id claims.sub) _ u);
        organization_claim = ok_or-ok claims.organization_id _ o;
        user_id = ok_or-ok (parse_uuid user) _ pu ∙ ap (λ c. some c.user_id) (ok_injective h₆);
        organization_id =
            ok_or-ok (parse_uuid organization) _ po
            ∙ ap (λ c. some c.organization_id) (ok_injective h₆);
      }

  Authorizes-validated :
      (bearer : Text) (context : AuthContext)
      → Authorizes bearer context
      → validate_bearer decode parse_uuid bearer ≡ ok context
  unfolding validate_bearer
  Authorizes-validated bearer context a =
      let t = (bearer_token_iff bearer a.token).1 a.scheme in
      ground (arith, t, a.decoded, a.user_claim, a.organization_claim, a.user_id, a.organization_id)

  -- `validate_bearer` returns a context exactly when the header is `Bearer` or `bearer`, a space
  -- and a token that decodes to claims whose user id (or subject, when there is no user id) and
  -- organization id parse to those of the context.
  pub validate_bearer_ok :
      (bearer : Text) (context : AuthContext)
      → (validate_bearer decode parse_uuid bearer ≡ ok context) ↔ Authorizes bearer context
  validate_bearer_ok bearer context =
      (validated-Authorizes bearer context, Authorizes-validated bearer context)
