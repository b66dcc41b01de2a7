-- ===== src/Github/Gate.antt =====
-- internal/auth/github.go: `AuthorizeAction`. The table is what `p.tables.Get` returns, nil as
-- `none`; how it is fetched and cached is not modelled.
use cynative.Base.{
  Str, codes, Bool, true, false, ◌||◌, not, if◌then◌else◌, List, [], ◌∷◌, Option, none, some, all,
  str_eq, contains, Result, ok, err, ◌>>=◌, ◌>>◌,
}
use cynative.Authreq.View.{View}
use cynative.Authority.{https_port, PortError, authorize_request_port}
use cynative.Exposure.{Level, level_allows, Exposure}
use cynative.Github.Table.{Route, Table}
use cynative.Github.Policy.{resolve, valid_keys}
use cynative.Github.Classifier.{ClassifyError, Access, is_graphql_endpoint, classify_request}

-- the errors that `AuthorizeAction` returns
pub data GateError : Type 0 where
  port : PortError → GateError
  graphql_unsupported exposure_exceeded table_not_ready unknown_key : GateError
  unclassifiable : ClassifyError → GateError

-- `isGithubDownloadHost`
abbrev pub download_hosts : List Str
download_hosts =
    codes "codeload.github.com"
    ∷ codes "release-assets.githubusercontent.com"
    ∷ codes "objects.githubusercontent.com"
    ∷ []

unfoldable pub is_github_download_host : Str → Bool
unfolding contains
is_github_download_host host = contains download_hosts host

-- `AuthorizesHost`
unfoldable pub authorizes_host : Str → Bool
unfolding is_github_download_host str_eq
authorizes_host host = str_eq host (codes "api.github.com") || is_github_download_host host

-- a Go error returned as this method's error
unfoldable pub or_fail {ℓ κ} :
    {E : Type κ} {A : Type ℓ} → (E → GateError) → Result E A → Result GateError A
or_fail f (ok a) = ok a
or_fail f (err e) = err (f e)

unfoldable pub require : Bool → GateError → Result GateError (Unit {0})
require true e = ok tt
require false e = err e

unfoldable pub ready : Option Table → Result GateError Table
ready none = err table_not_ready
ready (some t) = ok t

-- the last loop of `AuthorizeAction`
unfoldable pub route_allowed : Exposure → Level → Route → Bool
unfolding resolve level_allows
route_allowed e level r = level_allows (resolve e r.category r.subcategory) level

unfoldable pub all_allowed : Exposure → Access → Bool
unfolding all route_allowed
all_allowed e access = all (route_allowed e access.level) access.routes

-- `AuthorizeAction` on api.github.com, once the port and GraphQL are checked
unfoldable pub authorize_api : Exposure → Option Table → View → Result GateError (Unit {0})
unfolding ready require valid_keys or_fail classify_request all_allowed
authorize_api e tables v = do
  t ← ready tables
  require (valid_keys e t) unknown_key
  access ← or_fail unclassifiable (classify_request t v.method v.escaped_path)
  require (all_allowed e access) exposure_exceeded

-- `AuthorizeAction`
unfoldable pub authorize_action : Exposure → Option Table → View → Result GateError (Unit {0})
unfolding or_fail require authorize_request_port is_graphql_endpoint is_github_download_host
    authorize_api
authorize_action e tables v = do
  or_fail port (authorize_request_port v https_port)
  require (not (is_graphql_endpoint v.escaped_path)) graphql_unsupported
  if is_github_download_host v.hostname
      then require (str_eq v.method (codes "GET") || str_eq v.method (codes "HEAD"))
          exposure_exceeded
      else authorize_api e tables v
