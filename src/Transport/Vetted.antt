-- ===== src/Transport/Vetted.antt =====
-- What precedes the use of a credential.
use mathlib.Core.Option.{some_inj}
use cynative.Base.{
  ◌≡◌, refl, ◌∙◌, ap, subst, ◌⊎◌, inl, inr, Bool, true, false, Str, codes, List, Memᴰ, Memᴰ-cons,
  Option, none, some, Result, ok, err, ◌>>=◌, ◌>>◌, >>=-eq-ok, >>-eq-ok,
}
use cynative.Authreq.View.{View}
use cynative.Transport.Message.{HttpRequest, RequestArgs, World, new_view}
use cynative.Transport.Providers.{
  Provider, ProviderArgs, args_of, AuthError, find, from_provider, host_answer, action_answer,
  authorize_host, authorize_action, reject_model_supplied_credential,
}
use cynative.Transport.Request.{
  DoError, or_refused, prepare, pass_gates, Event, injects, sends, Wire, send_configured,
  after_injection, after_reject, after_find, after_gates, after_parse, do_request,
}
use cynative.Transport.Prepared.{
  IsAdmitted, HasNoCredential, or_refused-ok, prepare-IsAdmitted, reject-HasNoCredential,
}

-- The checks that a request has passed before the credential of `p` is attached.
pub record IsVetted (w : World) (providers : List Provider) (raw_args : Str) (p : Provider)
    (req : HttpRequest) : Type 0 where
  pub chosen :
      (args : RequestArgs) × (w.parse_args raw_args ≡ some args)
      × (find providers args.auth_provider ≡ ok p)
  pub host : p.authorizes_host (new_view req req.body).hostname (args_of raw_args p) ≡ ok true
  pub action :
      (gate : View → List (Str × Str) → ProviderArgs → Result Str (Unit {0}))
      → p.authorize_action ≡ some gate
      → gate (new_view req req.body) req.header (args_of raw_args p) ≡ ok tt
  pub secure : req.url.scheme ≡ codes "https"
  pub admitted : IsAdmitted w req.url.hostname
  pub unsigned : HasNoCredential w req

-- The event injects the credential into `req`, or sends what the injection made of it.
abbrev pub Uses : Provider → Str → HttpRequest → Event → Type 0
Uses p raw_args req e =
    (e ≡ injects req)
    ⊎ ((signed : HttpRequest) × (p.inject_auth req (args_of raw_args p) ≡ ok signed)
        × (e ≡ sends signed))

send-Uses :
    (wire : Wire) (p : Provider) (raw_args : Str) (req signed : HttpRequest)
    (r : Result Str (Unit {0}))
    → p.inject_auth req (args_of raw_args p) ≡ ok signed
    → (e : Event) → Memᴰ e (send_configured wire signed r).0
    → Uses p raw_args req e
send-Uses wire p raw_args req signed (err x) q e m = elim m [ ]
send-Uses wire p raw_args req signed (ok _) q e m = elim (Memᴰ-cons m) [
  | inl h ↦ inr (signed, q, h)
  | inr k ↦ elim k [ ]
]

injection-Uses :
    (wire : Wire) (p : Provider) (raw_args : Str) (req : HttpRequest) (r : Result Str HttpRequest)
    → p.inject_auth req (args_of raw_args p) ≡ r
    → (e : Event) → Memᴰ e (after_injection wire raw_args req r).0
    → Uses p raw_args req e
injection-Uses wire p raw_args req (err x) q e m = elim (Memᴰ-cons m) [
  | inl h ↦ inl h
  | inr k ↦ elim k [ ]
]
injection-Uses wire p raw_args req (ok signed) q e m = elim (Memᴰ-cons m) [
  | inl h ↦ inl h
  | inr k ↦ send-Uses wire p raw_args req signed (wire.configure signed raw_args) q e k
]

reject-Uses :
    (wire : Wire) (p : Provider) (raw_args : Str) (req : HttpRequest)
    (r : Result AuthError (Unit {0}))
    → (e : Event) → Memᴰ e (after_reject wire raw_args req p r).0
    → (r ≡ ok tt) × Uses p raw_args req e
reject-Uses wire p raw_args req (err x) e m = elim m [ ]
reject-Uses wire p raw_args req (ok tt) e m =
    (refl, injection-Uses wire p raw_args req (p.inject_auth req (args_of raw_args p)) refl e m)

host_answer-ok : (r : Result Str Bool) → host_answer r ≡ ok tt → r ≡ ok true
host_answer-ok (err e) h = cc h
host_answer-ok (ok true) h = refl
host_answer-ok (ok false) h = cc h

from_provider-ok : (r : Result Str (Unit {0})) → from_provider r ≡ ok tt → r ≡ ok tt
from_provider-ok (err e) h = cc h
from_provider-ok (ok tt) h = refl

action_answer-ok :
    (o : Option (View → List (Str × Str) → ProviderArgs → Result Str (Unit {0}))) (v : View)
    (header : List (Str × Str)) (args : ProviderArgs)
    → action_answer o v header args ≡ ok tt
    → (gate : View → List (Str × Str) → ProviderArgs → Result Str (Unit {0})) → o ≡ some gate
    → gate v header args ≡ ok tt
action_answer-ok none v header args h gate q = cc q
action_answer-ok (some g) v header args h gate q =
    subst
      (λ (f : View → List (Str × Str) → ProviderArgs → Result Str (Unit {0})).
        f v header args ≡ ok tt)
      (some_inj.0 q) (from_provider-ok (g v header args) h)

-- Some connector and request are vetted, and `e` uses that connector's credential for that request.
abbrev pub IsVettedUse : World → List Provider → Str → Event → Type 0
IsVettedUse w providers raw_args e =
    (p : Provider) × (req : HttpRequest) × IsVetted w providers raw_args p req
    × Uses p raw_args req e

module _ (w : World) (wire : Wire) (providers : List Provider) (raw_args : Str) (e : Event) where
  pass_gates-ok :
      (name : Str) (req : HttpRequest) (p : Provider)
      → find providers name ≡ ok p
      → pass_gates providers name raw_args req ≡ ok tt
      → (p.authorizes_host (new_view req req.body).hostname (args_of raw_args p) ≡ ok true)
        × (action_answer p.authorize_action (new_view req req.body) req.header (args_of raw_args p)
            ≡ ok tt)
  unfolding pass_gates authorize_host authorize_action
  pass_gates-ok name req p f g =
      let v = new_view req req.body in
      let (g1, g2) =
        >>-eq-ok (or_refused (authorize_host providers name v.hostname raw_args)) _ g in
      let h = or_refused-ok (authorize_host providers name v.hostname raw_args) g1 in
      let a = or_refused-ok (authorize_action providers name v req.header raw_args) g2 in
      (host_answer-ok _ (rw f at h), rw f at a)

  gates-IsVetted :
      (args : RequestArgs) (r : Result DoError HttpRequest)
      → w.parse_args raw_args ≡ some args
      → (prepare w args >>= λ req. pass_gates providers args.auth_provider raw_args req >> ok req)
        ≡ r
      → Memᴰ e (after_gates w wire providers args.auth_provider raw_args r).0
      → IsVettedUse w providers raw_args e
  gates-IsVetted args (err x) a q m = elim m [ ]
  gates-IsVetted args (ok req) a q m =
      let (r, e1, e2) = >>=-eq-ok (prepare w args) _ q in
      let (g, s) = >>-eq-ok (pass_gates providers args.auth_provider raw_args r) _ e2 in
      let same : r ≡ req = cc s in
      found (find providers args.auth_provider) refl m
        (prepare-IsAdmitted w args req (e1 ∙ ap ok same))
        (subst (λ x. pass_gates providers args.auth_provider raw_args x ≡ ok tt) same g)
    where
      found :
          (f : Result AuthError Provider)
          → find providers args.auth_provider ≡ f
          → Memᴰ e (after_find w wire raw_args req f).0
          → (req.url.scheme ≡ codes "https") × IsAdmitted w req.url.hostname
          → pass_gates providers args.auth_provider raw_args req ≡ ok tt
          → IsVettedUse w providers raw_args e
      found (err x) q m b g = elim m [ ]
      found (ok p) q m b g =
          let (n, u) =
            reject-Uses wire p raw_args req (reject_model_supplied_credential w req) e m in
          let (h, c) = pass_gates-ok args.auth_provider req p q g in
          (
            p,
            req,
            record {
              chosen = (args, a, q);
              host = h;
              action =
                  action_answer-ok p.authorize_action (new_view req req.body) req.header
                    (args_of raw_args p) c;
              secure = b.0;
              admitted = b.1;
              unsigned = reject-HasNoCredential w req n;
            },
            u,
          )

  parse-IsVetted :
      (o : Option RequestArgs)
      → w.parse_args raw_args ≡ o
      → Memᴰ e (after_parse w wire providers raw_args o).0
      → IsVettedUse w providers raw_args e
  parse-IsVetted none q m = elim m [ ]
  parse-IsVetted (some args) q m = gates-IsVetted args _ q refl m

-- Whatever `do` does with a credential, it does for a connector and a request that passed every check:
-- the arguments name the connector, which accepted the host and, if it judges actions, the action of
-- this very request; the scheme is https; the host has one spelling; and no header, query parameter
-- or userinfo of the model carries a credential. What is sent is what the connector made of that
-- request.
pub do_request-IsVetted :
    (w : World) (wire : Wire) (providers : List Provider) (raw_args : Str) (e : Event)
    → Memᴰ e (do_request w wire providers raw_args).0
    → IsVettedUse w providers raw_args e
unfolding do_request
do_request-IsVetted w wire providers raw_args e m =
    parse-IsVetted w wire providers raw_args e (w.parse_args raw_args) refl m
