-- ===== src/Transport/Request.antt =====
-- internal/transport/transport.go: `do`. What `configureTransport` and the wire answer is given.
use cynative.Base.{
  ℕ, ◌*◌, Bool, true, false, not, ◌&&◌, ◌||◌, if◌then◌else◌, ltb, Str, codes, List, [], ◌∷◌, ◌++◌,
  Option, none, some, str_eq, equal_fold, Result, ok, err, ◌>>=◌, ◌>>◌,
}
use cynative.Transport.Message.{
  Url, HttpRequest, ℤ, pos, negsuc, KeyValue, RequestArgs, World, new_view,
}
use cynative.Transport.Providers.{
  Provider, args_of, AuthError, provider_failed, find, authorize_host, authorize_action,
  reject_model_supplied_credential, admit_host,
}

-- `minTimeoutSeconds`, `maxTimeoutSeconds`, `defaultTimeoutSeconds`
abbrev pub min_timeout_seconds : ℕ
min_timeout_seconds = 1

abbrev pub max_timeout_seconds : ℕ
max_timeout_seconds = 60

abbrev pub default_timeout_seconds : ℕ
default_timeout_seconds = 20

-- `defaultMaxResponseBytes`, `absoluteMaxResponseBytes`
abbrev pub default_max_response_bytes : ℕ
default_max_response_bytes = 32 * 1024

abbrev pub absolute_max_response_bytes : ℕ
absolute_max_response_bytes = 10 * 1024 * 1024

-- the two clamps of `do`
unfoldable pub clamp_timeout : ℤ → ℕ
clamp_timeout (negsuc n) = default_timeout_seconds
clamp_timeout (pos n) =
    if ltb n min_timeout_seconds || ltb max_timeout_seconds n then default_timeout_seconds else n

unfoldable pub clamp_size : ℤ → ℕ
clamp_size (negsuc n) = default_max_response_bytes
clamp_size (pos n) =
    if ltb n 1
    then default_max_response_bytes
    else (if ltb absolute_max_response_bytes n then absolute_max_response_bytes else n)

pub data DoError : Type 0 where
  bad_arguments no_auth_provider bad_request reserved_header not_https : DoError
  refused : AuthError → DoError
  transport_failed request_failed : Str → DoError

-- `Header.Get`
unfoldable pub header_get : World → List (Str × Str) → Str → Str
unfolding str_eq
header_get w [] key = []
header_get w (line ∷ header) key =
    if str_eq line.0 (w.canonical_key key) then line.1 else header_get w header key

-- the loop over the headers; `Header.Add` puts a line at the end
unfoldable pub add_headers :
    World → List KeyValue → List (Str × Str) → Result DoError (List (Str × Str))
unfolding equal_fold
add_headers w [] header = ok header
add_headers w (h ∷ hs) header =
    if equal_fold h.key (codes "Host")
    then err reserved_header
    else (if equal_fold h.key (codes "Accept-Encoding")
        then add_headers w hs header
        else add_headers w hs (header ++ (w.canonical_key h.key, h.value) ∷ []))

-- `Header.Set`: the line takes the place of the others under its key
unfoldable pub header_set : List (Str × Str) → Str → Str → List (Str × Str)
unfolding str_eq
header_set [] key value = (key, value) ∷ []
header_set (line ∷ header) key value =
    let rest = header_set header key value in if str_eq line.0 key then rest else line ∷ rest

-- the default content type of a request with a body
unfoldable pub with_content_type : World → Str → List (Str × Str) → List (Str × Str)
unfolding header_get header_set str_eq
with_content_type w body header =
    if not (str_eq body []) && str_eq (header_get w header (codes "Content-Type")) []
    then header_set header (codes "Content-Type") (codes "application/json")
    else header

abbrev pub or_error {ℓ} : {A : Type ℓ} → DoError → Option A → Result DoError A
or_error e none = err e
or_error e (some a) = ok a

abbrev pub or_refused {ℓ} : {A : Type ℓ} → Result AuthError A → Result DoError A
or_refused (err e) = err (refused e)
or_refused (ok a) = ok a

abbrev pub require : Bool → DoError → Result DoError (Unit {0})
require true e = ok tt
require false e = err e

abbrev pub user_agent : List (Str × Str)
user_agent = (codes "User-Agent", codes "Cynative-Research/1.0") ∷ []

abbrev pub request_of : World → RequestArgs → Url → List (Str × Str) → HttpRequest
request_of w args url header = record {
  method = args.method;
  url = url;
  header = with_content_type w args.body header;
  body = args.body;
}

-- `do` from the parsed arguments to the gates
unfoldable pub prepare : World → RequestArgs → Result DoError HttpRequest
unfolding add_headers with_content_type admit_host str_eq
prepare w args =
    require (not (str_eq args.auth_provider [])) no_auth_provider
    >> or_error bad_request (w.parse_url args.method args.url)
    >>= λ url. add_headers w args.headers user_agent >>= λ header.
        require (str_eq url.scheme (codes "https")) not_https
        >> or_refused (admit_host w url.hostname)
        >> ok (request_of w args url header)

-- `AuthorizeHost` and `AuthorizeAction`
unfoldable pub pass_gates : List Provider → Str → Str → HttpRequest → Result DoError (Unit {0})
unfolding authorize_host authorize_action new_view
pass_gates providers name raw_args req =
    let v = new_view req req.body in
    or_refused (authorize_host providers name v.hostname raw_args)
    >> or_refused (authorize_action providers name v req.header raw_args)

-- What `do` does to the credential and the wire.
pub data Event : Type 0 where
  injects sends : HttpRequest → Event

-- What `configureTransport` and `httpClient.Do` answer.
pub record Wire : Type 0 where
  pub configure : HttpRequest → Str → Result Str (Unit {0})
  pub send : HttpRequest → Result Str Str

abbrev pub Outcome : Type 0
Outcome = List Event × Result DoError Str

abbrev pub sent_answer : Result Str Str → Result DoError Str
sent_answer (err e) = err (request_failed e)
sent_answer (ok s) = ok s

-- `do` after `Inject`
abbrev pub send_configured : Wire → HttpRequest → Result Str (Unit {0}) → Outcome
send_configured wire req (err e) = ([], err (transport_failed e))
send_configured wire req (ok _) = (sends req ∷ [], sent_answer (wire.send req))

abbrev pub after_injection : Wire → Str → HttpRequest → Result Str HttpRequest → Outcome
after_injection wire raw_args req (err e) = (injects req ∷ [], err (refused (provider_failed e)))
after_injection wire raw_args req (ok signed) =
    let out = send_configured wire signed (wire.configure signed raw_args) in
    (injects req ∷ out.0, out.1)

-- `Inject`, and what follows it
abbrev pub after_reject :
    Wire → Str → HttpRequest → Provider → Result AuthError (Unit {0}) → Outcome
after_reject wire raw_args req p (err e) = ([], err (refused e))
after_reject wire raw_args req p (ok _) =
    after_injection wire raw_args req (p.inject_auth req (args_of raw_args p))

abbrev pub after_find : World → Wire → Str → HttpRequest → Result AuthError Provider → Outcome
after_find w wire raw_args req (err e) = ([], err (refused e))
after_find w wire raw_args req (ok p) =
    after_reject wire raw_args req p (reject_model_supplied_credential w req)

abbrev pub after_gates :
    World → Wire → List Provider → Str → Str → Result DoError HttpRequest → Outcome
after_gates w wire providers name raw_args (err e) = ([], err e)
after_gates w wire providers name raw_args (ok req) =
    after_find w wire raw_args req (find providers name)

abbrev pub after_parse : World → Wire → List Provider → Str → Option RequestArgs → Outcome
after_parse w wire providers raw_args none = ([], err bad_arguments)
after_parse w wire providers raw_args (some args) =
    after_gates w wire providers args.auth_provider raw_args
      (prepare w args >>= λ req. pass_gates providers args.auth_provider raw_args req >> ok req)

-- `do`
unfoldable pub do_request : World → Wire → List Provider → Str → Outcome
unfolding prepare pass_gates find reject_model_supplied_credential
do_request w wire providers raw_args = after_parse w wire providers raw_args (w.parse_args raw_args)
