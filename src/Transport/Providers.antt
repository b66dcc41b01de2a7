-- ===== src/Transport/Providers.antt =====
-- internal/auth/provider.go: the connectors as the transport calls them, and `AdmitHost` of
-- internal/auth/authority.go.
use cynative.Base.{
  Bool, true, false, if◌then◌else◌, leb, ◌==◌, Str, codes, List, [], ◌∷◌, ◌++◌, map, to_lower,
  Option, none, some, any, equal_fold, cut_before, Result, ok, err, ◌>>=◌, ◌>>◌,
}
use cynative.Authreq.View.{View}
use cynative.Transport.Message.{HttpRequest, World}

-- `authreq.ProviderArgs`: the tool call, and the key of the one block that a provider decodes of it
pub record ProviderArgs : Type 0 where
  pub key : Str
  pub tool_call : Str

-- `authreq.NewProviderArgs`
unfoldable pub new_provider_args : Str → Str → ProviderArgs
unfolding to_lower
new_provider_args tool_call provider = record {
  key = to_lower provider ++ codes "_auth";
  tool_call = tool_call;
}

-- `Provider`, with `ActionAuthorizer` where a provider has it. An action is judged by the view and the
-- headers in it.
pub record Provider : Type 0 where
  pub name : Str
  pub authorizes_host : Str → ProviderArgs → Result Str Bool
  pub authorize_action : Option (View → List (Str × Str) → ProviderArgs → Result Str (Unit {0}))
  pub inject_auth : HttpRequest → ProviderArgs → Result Str HttpRequest

pub data AuthError : Type 0 where
  unknown_provider host_not_authorized non_ascii_host zoned_host : AuthError
  credential_header credential_param : Str → AuthError
  unparseable_query userinfo_present : AuthError
  provider_failed : Str → AuthError

-- what `p` is called with: its own arguments
abbrev pub args_of : Str → Provider → ProviderArgs
args_of raw_args p = new_provider_args raw_args p.name

-- `find`
unfoldable pub find : List Provider → Str → Result AuthError Provider
unfolding equal_fold
find [] name = err unknown_provider
find (p ∷ providers) name =
    let rest = find providers name in if equal_fold p.name name then ok p else rest

abbrev pub host_answer : Result Str Bool → Result AuthError (Unit {0})
host_answer (err e) = err (provider_failed e)
host_answer (ok true) = ok tt
host_answer (ok false) = err host_not_authorized

-- `AuthorizeHost`
unfoldable pub authorize_host : List Provider → Str → Str → Str → Result AuthError (Unit {0})
unfolding find new_provider_args
authorize_host providers name host raw_args =
    find providers name >>= λ p. host_answer (p.authorizes_host host (args_of raw_args p))

abbrev pub from_provider {ℓ} : {A : Type ℓ} → Result Str A → Result AuthError A
from_provider (err e) = err (provider_failed e)
from_provider (ok a) = ok a

abbrev pub action_answer :
    Option (View → List (Str × Str) → ProviderArgs → Result Str (Unit {0}))
    → View
    → List (Str × Str)
    → ProviderArgs
    → Result AuthError (Unit {0})
action_answer none v header args = ok tt
action_answer (some gate) v header args = from_provider (gate v header args)

-- `AuthorizeAction`
unfoldable pub authorize_action :
    List Provider → Str → View → List (Str × Str) → Str → Result AuthError (Unit {0})
unfolding find new_provider_args
authorize_action providers name v header raw_args =
    find providers name >>= λ p. action_answer p.authorize_action v header (args_of raw_args p)

-- `credentialHeaders`
abbrev pub credential_headers : List Str
credential_headers =
    codes "Authorization"
    ∷ codes "Proxy-Authorization"
    ∷ codes "X-Http-Authorization"
    ∷ codes "X-Ms-Authorization-Auxiliary"
    ∷ codes "Private-Token"
    ∷ codes "Job-Token"
    ∷ codes "Deploy-Token"
    ∷ codes "X-Gitlab-Static-Object-Token"
    ∷ codes "Cookie"
    ∷ []

-- `credentialParams`
abbrev pub credential_params : List Str
credential_params =
    codes "private_token"
    ∷ codes "access_token"
    ∷ codes "job_token"
    ∷ codes "feed_token"
    ∷ codes "rss_token"
    ∷ []

-- `strings.ReplaceAll(key, "_", "-")`
unfoldable pub dashed : Str → Str
dashed key = map (λ c. if c == b'_' then b'-' else c) key

-- `credentialHeaderIs`
unfoldable pub credential_header_is : Str → Str → Bool
unfolding dashed equal_fold
credential_header_is key h = equal_fold (dashed key) h

-- `isCredentialParam`
unfoldable pub is_credential_param : Str → Bool
unfolding any equal_fold cut_before
is_credential_param key = any (λ p. equal_fold (cut_before b'[' key) p) credential_params

-- the first loop of `rejectModelSuppliedCredential`: each header that is present has a value
unfoldable pub reject_headers : List (Str × Str) → List Str → Result AuthError (Unit {0})
unfolding any credential_header_is
reject_headers header [] = ok tt
reject_headers header (h ∷ hs) =
    let rest = reject_headers header hs in
    if any (λ (line : Str × Str). credential_header_is line.0 h) header
    then err (credential_header h)
    else rest

unfoldable pub reject_params : List Str → Result AuthError (Unit {0})
unfolding is_credential_param
reject_params [] = ok tt
reject_params (key ∷ keys) =
    let rest = reject_params keys in
    if is_credential_param key then err (credential_param key) else rest

abbrev pub params_answer : Option (List Str) → Result AuthError (Unit {0})
params_answer none = err unparseable_query
params_answer (some keys) = reject_params keys

-- `rejectModelSuppliedCredential`
unfoldable pub reject_model_supplied_credential : World → HttpRequest → Result AuthError (Unit {0})
unfolding reject_headers reject_params
reject_model_supplied_credential w req =
    reject_headers req.header credential_headers
    >> params_answer (w.query_keys req.url.raw_query)
    >> (if req.url.has_user then err userinfo_present else ok tt)

-- `AdmitHost`
unfoldable pub admit_host : World → Str → Result AuthError (Unit {0})
unfolding any
admit_host w host =
    if any (λ c. leb 128 c) host
    then err non_ascii_host
    else (if w.has_zone host then err zoned_host else ok tt)
