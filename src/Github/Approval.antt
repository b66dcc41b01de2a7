-- ===== src/Github/Approval.antt =====
-- What `AuthorizeAction` of internal/auth/github.go lets through.
use mathlib.Core.List.Memᴰ
use cynative.Base.{
  ◌≡◌, refl, sym, ap, subst, ◌↔◌, ◌⊎◌, ◌≤◌, Bool, true, false, if◌then◌else◌, List, [], ◌∷◌, Memᴰ,
  Option, none, some, all_iff, Result, ok, err, >>=-eq-ok, >>-eq-ok,
}
use cynative.Authreq.View.{View}
use cynative.Authreq.Path.{has_dot_segment}
use cynative.Exposure.{Level, Exposure, level_allows}
use cynative.Github.Table.{Route, Table, split_path}
use cynative.Github.Lookup.{lookup_routes, templates, count_byte, max_path_segments}
use cynative.Github.Routing.{Wins, WinsTrimmed, lookup_routes_iff}
use cynative.Github.Policy.{resolve, valid_keys}
use cynative.Github.Classifier.{
  ClassifyError, Access, access_of, normal_method, required_level, lookup_method, classify_request,
}
use cynative.Github.Gate.{
  GateError, or_fail, require, ready, route_allowed, all_allowed, authorize_api, unknown_key,
  unclassifiable,
}

-- The routes under which the request may run.
abbrev pub Reaches : Table → View → Route → Type 0
Reaches t v r =
    let tmpls = templates t (lookup_method (normal_method v.method)) in
    Wins t tmpls (split_path v.escaped_path) r ⊎ WinsTrimmed t tmpls (split_path v.escaped_path) r

-- The exposure covers the request: it is classified, has a route, and the ceiling of each of its
-- routes is at least the level that it needs.
pub record IsApproved (e : Exposure) (t : Table) (v : View) : Type 0 where
  pub level : Level
  pub classified : required_level (normal_method v.method) v.escaped_path ≡ ok level
  pub undotted : has_dot_segment v.escaped_path ≡ false
  pub known_keys : valid_keys e t ≡ true
  pub route : Route
  pub reached : Reaches t v route
  pub covered :
      (r : Route) → Reaches t v r → level_allows (resolve e r.category r.subcategory) level ≡ true

pub require_iff : (b : Bool) (e : GateError) → (require b e ≡ ok tt) ↔ (b ≡ true)
unfolding require
require_iff true e = (λ _. refl, λ _. refl)
require_iff false e = (λ h. cc, λ h. cc)

pub or_fail_iff {ℓ κ} :
    {E : Type κ} {A : Type ℓ} (f : E → GateError) (m : Result E A) (a : A)
    → (or_fail f m ≡ ok a) ↔ (m ≡ ok a)
unfolding or_fail
or_fail_iff f (ok b) a = (λ h. cc, λ h. cc)
or_fail_iff f (err e) a = (λ h. cc, λ h. cc)

access_of_inv :
    (l : Level) (rs : List Route) (a : Access)
    → access_of l rs ≡ ok a
    → (r : Route) × Memᴰ r rs × (a ≡ record { routes = rs; level = l })
unfolding access_of
access_of_inv l [] a h = cc
access_of_inv l (r ∷ rs) a h = (r, Memᴰ.head refl, cc)

access_of-mem :
    (l : Level) {r : Route} (rs : List Route)
    → Memᴰ r rs
    → access_of l rs ≡ ok (record { routes = rs; level = l })
unfolding access_of
access_of-mem l [] m = absurd (Memᴰ.not-nil m)
access_of-mem l (r ∷ rs) m = refl

-- The first steps of `ClassifyRequest` succeed.
IsClassified : Table → View → Level → Type 0
IsClassified t v l =
    (required_level (normal_method v.method) v.escaped_path ≡ ok l)
    × (has_dot_segment v.escaped_path ≡ false)

dotted :
    (b : Bool) (m : Result ClassifyError Access) (a : Access)
    → (if b then err ClassifyError.dot_segment else m) ≡ ok a
    → (b ≡ false) × (m ≡ ok a)
dotted true m a h = cc
dotted false m a h = (refl, h)

classify_request_inv :
    (t : Table) (v : View) (a : Access)
    → classify_request t v.method v.escaped_path ≡ ok a
    → IsClassified t v a.level
      × (a.routes ≡ lookup_routes t (lookup_method (normal_method v.method)) v.escaped_path)
      × ((r : Route) × Memᴰ r a.routes)
unfolding classify_request IsClassified
classify_request_inv t v a h =
    let (l, c, g) = >>=-eq-ok (required_level (normal_method v.method) v.escaped_path) _ h in
    let (u, k) = dotted _ _ a g in
    let (r, m, e) = access_of_inv l _ a k in ((rw e c, u), ap (λ x. x.routes) e, (r, rw e m))

classify_request_intro :
    (t : Table) (v : View) (l : Level) {r : Route}
    → IsClassified t v l
    → Memᴰ r (lookup_routes t (lookup_method (normal_method v.method)) v.escaped_path)
    → classify_request t v.method v.escaped_path
      ≡ ok (record {
        routes = lookup_routes t (lookup_method (normal_method v.method)) v.escaped_path;
        level = l;
      })
unfolding classify_request IsClassified
classify_request_intro t v l (c, u) m = simp (c, u) (access_of-mem l _ m)

-- On api.github.com and a path of at most 8192 slashes, a request is authorised exactly if the
-- table is ready and the exposure covers the request.
pub authorize_api_iff :
    (e : Exposure) (tables : Option Table) (v : View)
    → count_byte b'/' v.escaped_path ≤ max_path_segments
    → (authorize_api e tables v ≡ ok tt) ↔ ((t : Table) × (tables ≡ some t) × IsApproved e t v)
unfolding authorize_api ready all_allowed route_allowed IsClassified
authorize_api_iff e none v short = (λ h. cc h, λ w. cc w.1)
authorize_api_iff e (some t) v short = (
  λ h.
      let (k, g) = >>-eq-ok (require (valid_keys e t) unknown_key) _ h in
      let (a, c, f) =
        >>=-eq-ok (or_fail unclassifiable (classify_request t v.method v.escaped_path)) _ g in
      let (cl, rs, (r, m)) = classify_request_inv t v a ((or_fail_iff _ _ a).0 c) in
      let ok_all = (all_iff _ a.routes).0 ((require_iff _ _).0 f) in
      (
        t,
        refl,
        record {
          level = a.level;
          classified = cl.0;
          undotted = cl.1;
          known_keys = (require_iff _ _).0 k;
          route = r;
          reached = (reach r).0 (subst (Memᴰ r) rs m);
          covered = λ q w. ok_all q (subst (Memᴰ q) (sym rs) ((reach q).1 w));
        },
      ),
  λ (s, q, w).
      let same : t ≡ s = cc q in
      let p = subst (λ u. IsApproved e u v) (sym same) w in
      let c =
        classify_request_intro t v p.level (p.classified, p.undotted)
          ((reach p.route).1 p.reached) in
      let f = (all_iff (route_allowed e p.level) _).1 (λ r m. p.covered r ((reach r).0 m)) in
      simp (p.known_keys, c, f) refl,
)
  where
    reach :
        (r : Route)
        → Memᴰ r (lookup_routes t (lookup_method (normal_method v.method)) v.escaped_path)
          ↔ Reaches t v r
    reach r = lookup_routes_iff t (lookup_method (normal_method v.method)) v.escaped_path r short
