-- ===== src/Github/Authorized.antt =====
-- The GitHub gate as a whole, and what a ceiling of read and an admitted table mean for it.
use cynative.Base.{
  codes, ◌≡◌, refl, ◌↔◌, ◌⊎◌, ◌≤◌, inl, inr, Bool, true, false, ◌||◌, not, if◌then◌else◌, Option,
  some, str_eq, str_eq_iff, Result, ok, ◌>>◌, >>-eq-ok, ||_iff,
}
use cynative.Authreq.View.{View}
use cynative.Authority.{
  https_port, authorize_request_port, defaulted_port, authorize_request_port_iff,
}
use cynative.Exposure.{Exposure}
use cynative.Github.Table.{Table}
use cynative.Github.Lookup.{count_byte, max_path_segments}
use cynative.Github.Classifier.{is_graphql_endpoint}
use cynative.Github.Gate.{
  GateError, or_fail, require, is_github_download_host, authorize_action, exposure_exceeded,
  graphql_unsupported, port,
}
use cynative.Github.Approval.{IsApproved, require_iff, or_fail_iff, authorize_api_iff}

-- A file download: the request only reads.
abbrev pub IsDownload : View → Type 0
IsDownload v =
    (is_github_download_host v.hostname ≡ true)
    × ((v.method ≡ codes "GET") ⊎ (v.method ≡ codes "HEAD"))

abbrev pub IsApiCall : Exposure → Option Table → View → Type 0
IsApiCall e tables v =
    (is_github_download_host v.hostname ≡ false)
    × ((t : Table) × (tables ≡ some t) × IsApproved e t v)

require-chain :
    (b : Bool) (e : GateError) (m : Result GateError (Unit {0}))
    → ((require b e >> m) ≡ ok tt) ↔ ((b ≡ true) × (m ≡ ok tt))
unfolding require
require-chain true e m = (λ h. (refl, h), λ h. h.1)
require-chain false e m = (λ h. cc, λ h. cc (h.0))

not_iff : (b : Bool) → (not b ≡ true) ↔ (b ≡ false)
not_iff true = (λ h. cc, λ h. cc)
not_iff false = (λ _. refl, λ _. refl)

host_cases :
    (b : Bool) {m n : Result GateError (Unit {0})} {D A : Type 0}
    → (m ≡ ok tt) ↔ D
    → (n ≡ ok tt) ↔ A
    → ((if b then m else n) ≡ ok tt) ↔ (((b ≡ true) × D) ⊎ ((b ≡ false) × A))
host_cases true d a = (λ h. inl (refl, d.0 h), λ s. elim s [ inl x ↦ d.1 x.1 | inr y ↦ cc (y.0) ])
host_cases false d a = (λ h. inr (refl, a.0 h), λ s. elim s [ inl x ↦ cc (x.0) | inr y ↦ a.1 y.1 ])

port-chain :
    (v : View) (m : Result GateError (Unit {0}))
    → ((or_fail port (authorize_request_port v https_port) >> m) ≡ ok tt)
      ↔ ((defaulted_port v.port ≡ https_port) × (m ≡ ok tt))
port-chain v m =
    let e = authorize_request_port_iff v https_port in
    (
      λ h.
          let (p, k) = >>-eq-ok (or_fail port (authorize_request_port v https_port)) m h in
          (((e.0 ((or_fail_iff port _ tt).0 p)).1), k),
      λ (p, k).
          rw ((or_fail_iff port (authorize_request_port v https_port) tt).1 (e.1 (λ q. cc q, p))) k,
    )

-- For a path of at most 8192 slashes, `AuthorizeAction` lets a request through exactly if it goes
-- to port 443, is not for GraphQL, and is a GET or HEAD to a download host or an API call that the
-- exposure covers.
pub authorize_action_iff :
    (e : Exposure) (tables : Option Table) (v : View)
    → count_byte b'/' v.escaped_path ≤ max_path_segments
    → (authorize_action e tables v ≡ ok tt) ↔ (
        (defaulted_port v.port ≡ https_port)
        × (is_graphql_endpoint v.escaped_path ≡ false)
        × (IsDownload v ⊎ IsApiCall e tables v))
unfolding authorize_action
authorize_action_iff e tables v short =
    let p = port-chain v _ in
    let q = require-chain (not (is_graphql_endpoint v.escaped_path)) graphql_unsupported _ in
    let n = not_iff (is_graphql_endpoint v.escaped_path) in
    let get = str_eq_iff v.method (codes "GET") in
    let head = str_eq_iff v.method (codes "HEAD") in
    let reads = ||_iff (str_eq v.method (codes "GET")) (str_eq v.method (codes "HEAD")) get head in
    let r =
      require_iff (str_eq v.method (codes "GET") || str_eq v.method (codes "HEAD"))
        exposure_exceeded in
    let c =
      host_cases (is_github_download_host v.hostname) (λ h. reads.0 (r.0 h), λ h. r.1 (reads.1 h))
        (authorize_api_iff e tables v short) in
    (
      λ h. let (a, k) = p.0 h in let (b, l) = q.0 k in (a, n.0 b, c.0 l),
      λ (a, b, l). p.1 (a, q.1 (n.1 b, c.1 l)),
    )
