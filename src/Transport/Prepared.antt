-- ===== src/Transport/Prepared.antt =====
-- What the checks before the gates leave, and what the check for credentials leaves.
use cynative.Base.{
  ◌≡◌, refl, sym, subst, inl, inr, Bool, true, false, not, leb, Str, codes, List, [], ◌∷◌, Memᴰ,
  Memᴰ-cons, Option, none, some, str_eq, str_eq_iff, any, any_iff, eq-false_iff, Result, ok, err,
  ◌>>◌, >>=-eq-ok, >>-eq-ok, Bool-cases,
}
use cynative.Transport.Message.{HttpRequest, RequestArgs, World}
use cynative.Transport.Providers.{
  AuthError, credential_headers, credential_header_is, is_credential_param, reject_headers,
  reject_params, params_answer, reject_model_supplied_credential, admit_host,
}
use cynative.Transport.Request.{
  DoError, no_auth_provider, bad_request, not_https, add_headers, or_error, or_refused, require,
  user_agent, request_of, prepare,
}

pub or_refused-ok : {A : Type 0} (r : Result AuthError A) {a : A} → or_refused r ≡ ok a → r ≡ ok a
or_refused-ok (err e) h = cc h
or_refused-ok (ok b) h = cc h

require-ok : (b : Bool) (e : DoError) → require b e ≡ ok tt → b ≡ true
require-ok true e h = refl
require-ok false e h = cc h

-- A host that has one spelling: bytes of ASCII, and no zone.
abbrev pub IsAdmitted : World → Str → Type 0
IsAdmitted w host = (any (λ c. leb 128 c) host ≡ false) × (w.has_zone host ≡ false)

admit_host-IsAdmitted : (w : World) (host : Str) → admit_host w host ≡ ok tt → IsAdmitted w host
unfolding admit_host
admit_host-IsAdmitted w host h = elim (Bool-cases (any (λ c. leb 128 c) host)) [
  | inl a ↦ cc (rw a at h)
  | inr a ↦ elim (Bool-cases (w.has_zone host)) [ inl b ↦ cc (rw (a, b) at h) | inr b ↦ (a, b) ]
]

pub prepare-IsAdmitted :
    (w : World) (args : RequestArgs) (req : HttpRequest)
    → prepare w args ≡ ok req
    → (req.url.scheme ≡ codes "https") × IsAdmitted w req.url.hostname
unfolding prepare
prepare-IsAdmitted w args req e =
    let (url, _, e2) =
      >>=-eq-ok
        (require (not (str_eq args.auth_provider [])) no_auth_provider
          >> or_error bad_request (w.parse_url args.method args.url))
        _ e in
    let (header, _, e3) = >>=-eq-ok (add_headers w args.headers user_agent) _ e2 in
    let (e4, e5) =
      >>-eq-ok
        (require (str_eq url.scheme (codes "https")) not_https
          >> or_refused (admit_host w url.hostname))
        _ e3 in
    let (e6, e7) = >>-eq-ok (require (str_eq url.scheme (codes "https")) not_https) _ e4 in
    let q : request_of w args url header ≡ req = cc e5 in
    subst (λ r. (r.url.scheme ≡ codes "https") × IsAdmitted w r.url.hostname) q
      (
        (str_eq_iff url.scheme (codes "https")).0 (require-ok _ _ e6),
        admit_host-IsAdmitted w url.hostname (or_refused-ok (admit_host w url.hostname) e7),
      )

-- The request carries none of the credentials that the connector injects.
pub record HasNoCredential (w : World) (req : HttpRequest) : Type 0 where
  pub no_header :
      (key value h : Str)
      → Memᴰ (key, value) req.header
      → Memᴰ h credential_headers
      → credential_header_is key h ≡ false
  pub no_param :
      (keys : List Str) × (w.query_keys req.url.raw_query ≡ some keys)
      × ((key : Str) → Memᴰ key keys → is_credential_param key ≡ false)
  pub no_user : req.url.has_user ≡ false

any-false :
    {A : Type 0} (p : A → Bool) (xs : List A) → any p xs ≡ false → (x : A) → Memᴰ x xs → p x ≡ false
any-false p xs h x m = elim (Bool-cases (p x)) [
  | inl e ↦ absurd ((eq-false_iff (any p xs) (any_iff p xs)).0 h (x, m, e))
  | inr e ↦ e
]

reject_headers-ok :
    (header : List (Str × Str)) (hs : List Str)
    → reject_headers header hs ≡ ok tt
    → (h : Str) → Memᴰ h hs
    → any (λ (line : Str × Str). credential_header_is line.0 h) header ≡ false
unfolding reject_headers
reject_headers-ok header [] e h m = elim m [ ]
reject_headers-ok header (g ∷ hs) e h m =
    elim (Bool-cases (any (λ (line : Str × Str). credential_header_is line.0 g) header)) [
      | inl b ↦ cc (rw b at e)
      | inr b ↦ elim (Memᴰ-cons m) [
        | inl q ↦
            subst (λ x. any (λ (line : Str × Str). credential_header_is line.0 x) header ≡ false)
              (sym q) b
        | inr k ↦ reject_headers-ok header hs (rw b at e) h k
      ]
    ]

reject_params-ok :
    (keys : List Str)
    → reject_params keys ≡ ok tt
    → (key : Str) → Memᴰ key keys
    → is_credential_param key ≡ false
unfolding reject_params
reject_params-ok [] e key m = elim m [ ]
reject_params-ok (k ∷ keys) e key m = elim (Bool-cases (is_credential_param k)) [
  | inl b ↦ cc (rw b at e)
  | inr b ↦ elim (Memᴰ-cons m) [
    | inl q ↦ subst (λ x. is_credential_param x ≡ false) (sym q) b
    | inr n ↦ reject_params-ok keys (rw b at e) key n
  ]
]

params_answer-ok :
    (o : Option (List Str))
    → params_answer o ≡ ok tt
    → (keys : List Str) × (o ≡ some keys)
      × ((key : Str) → Memᴰ key keys → is_credential_param key ≡ false)
params_answer-ok none e = cc e
params_answer-ok (some keys) e = (keys, refl, reject_params-ok keys e)

pub reject-HasNoCredential :
    (w : World) (req : HttpRequest)
    → reject_model_supplied_credential w req ≡ ok tt
    → HasNoCredential w req
unfolding reject_model_supplied_credential
reject-HasNoCredential w req e =
    let (e1, e2) =
      >>-eq-ok
        (reject_headers req.header credential_headers
          >> params_answer (w.query_keys req.url.raw_query))
        _ e in
    let (e3, e4) = >>-eq-ok (reject_headers req.header credential_headers) _ e1 in
    record {
      no_header = λ key value h m n.
          any-false (λ (line : Str × Str). credential_header_is line.0 h) req.header
            (reject_headers-ok req.header credential_headers e3 h n) (key, value) m;
      no_param = params_answer-ok (w.query_keys req.url.raw_query) e4;
      no_user = elim (Bool-cases req.url.has_user) [ inl b ↦ cc (rw b at e2) | inr b ↦ b ];
    }
