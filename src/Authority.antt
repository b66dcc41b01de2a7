-- ===== src/Authority.antt =====
-- internal/auth/authority.go: the port that a connector is pinned to.
mod Tests
use cynative.Base.{
  Str, codes, ◌≡◌, refl, ◌↔◌, ◌≢◌, if◌then◌else◌, [], ◌∷◌, str_eq, str_eq_iff, Bool-cases, inl, inr,
  Result, ok, err, eq-false_iff,
}
use cynative.Authreq.View.{View}

-- `httpsPort`
abbrev pub https_port : Str
https_port = codes "443"

-- `defaultedPort`
unfoldable pub defaulted_port : Str → Str
defaulted_port [] = https_port
defaulted_port (c ∷ port) = c ∷ port

-- the two messages of `authorizeRequestPort` under `ErrHostNotAuthorized`
pub data PortError : Type 0 where
  no_port_configured : PortError
  wrong_port : (want got : Str) → PortError

port_matches : Str → Str → Result PortError (Unit {0})
port_matches got want = if str_eq got want then ok tt else err (wrong_port want got)

-- `authorizeRequestPort`
unfoldable pub authorize_request_port : View → Str → Result PortError (Unit {0})
unfolding port_matches defaulted_port str_eq
authorize_request_port v [] = err no_port_configured
authorize_request_port v (c ∷ want) = port_matches (defaulted_port v.port) (c ∷ want)

port_matches_iff : (got want : Str) → (port_matches got want ≡ ok tt) ↔ (got ≡ want)
unfolding port_matches
port_matches_iff got want = elim (Bool-cases (str_eq got want)) [
  | inl e ↦ rw e (λ _. (str_eq_iff got want).0 e, λ _. refl)
  | inr e ↦ rw e (λ h. cc h, λ h. absurd ((eq-false_iff _ (str_eq_iff got want)).0 e h))
]

-- The request is let through exactly if the connector has a port and the request, with the https
-- default for a missing port, names it.
pub authorize_request_port_iff :
    (v : View) (want : Str)
    → (authorize_request_port v want ≡ ok tt) ↔ ((want ≢ []) × (defaulted_port v.port ≡ want))
unfolding authorize_request_port
authorize_request_port_iff v [] = (λ h. cc h, λ s. absurd (s.0 refl))
authorize_request_port_iff v (c ∷ want) =
    let e = port_matches_iff (defaulted_port v.port) (c ∷ want) in
    (λ h. (λ z. cc z, e.0 h), λ s. e.1 s.1)
