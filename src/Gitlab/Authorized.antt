-- ===== src/Gitlab/Authorized.antt =====
-- What the GitLab gate lets through once the table is fetched.
use cynative.Base.{
  ◌≡◌, refl, sym, subst, ◌↔◌, Bool, true, false, if◌then◌else◌, Option, none, some, Result, ok, err,
  >>=-eq-ok, >>-eq-ok,
}
use cynative.Authreq.View.{View}
use cynative.Authreq.Path.{has_dot_segment}
use cynative.Exposure.{Level, Exposure, level_allows}
use cynative.Gitlab.Table.{
  Route, Table, templates, decode_segs, strip_last, is_anchored, lookup_route,
}
use cynative.Gitlab.Best.{IsChosen, lookup_route_iff}
use cynative.Gitlab.Classifier.{
  ClassifyError, Access, access_of, normal_method, required_level, lookup_method, classify_request,
}
use cynative.Gitlab.Gate.{
  GateError, or_unclassifiable, require, ready, valid_keys, resolve, authorize_table, unknown_key,
  exposure_exceeded,
}

-- The request runs as this route.
abbrev pub RunsAs : Table → View → Route → Type 0
RunsAs t v r =
    (is_anchored (decode_segs v.escaped_path) ≡ true)
    × IsChosen (templates t (lookup_method (normal_method v.method)))
        (strip_last (decode_segs v.escaped_path)) r

-- The ceiling of the request's category is at least the level that it needs.
pub record IsApproved (e : Exposure) (t : Table) (v : View) : Type 0 where
  pub level : Level
  pub classified : required_level v.method v.escaped_path ≡ ok level
  pub undotted : has_dot_segment v.escaped_path ≡ false
  pub known_keys : valid_keys e t ≡ true
  pub route : Route
  pub chosen : RunsAs t v route
  pub covered : level_allows (resolve e route.category) level ≡ true

require_iff : (b : Bool) (e : GateError) → (require b e ≡ ok tt) ↔ (b ≡ true)
unfolding require
require_iff true e = (λ _. refl, λ _. refl)
require_iff false e = (λ h. cc h, λ h. cc h)

or_unclassifiable_iff {ℓ} :
    {A : Type ℓ} (m : Result ClassifyError A) (a : A) → (or_unclassifiable m ≡ ok a) ↔ (m ≡ ok a)
unfolding or_unclassifiable
or_unclassifiable_iff (ok b) a = (λ h. cc, λ h. cc)
or_unclassifiable_iff (err e) a = (λ h. cc, λ h. cc)

access_of_inv :
    (l : Level) (o : Option Route) (a : Access)
    → access_of l o ≡ ok a
    → (r : Route) × (o ≡ some r) × (a ≡ record { category = r.category; level = l })
unfolding access_of
access_of_inv l none a h = cc h
access_of_inv l (some r) a h = (r, refl, cc h)

undotted_inv :
    (b : Bool) (m : Result ClassifyError Access) (a : Access)
    → (if b then err ClassifyError.dot_segment else m) ≡ ok a
    → (b ≡ false) × (m ≡ ok a)
undotted_inv true m a h = cc h
undotted_inv false m a h = (refl, h)

-- Once the table is fetched, a request is let through exactly if the table is there, each key of
-- the exposure is known, the request is classified and runs as a route, and the ceiling of the
-- route's category is at least the level that the request needs.
pub authorize_table_iff :
    (e : Exposure) (tables : Option Table) (v : View)
    → (authorize_table e tables v ≡ ok tt) ↔ ((t : Table) × (tables ≡ some t) × IsApproved e t v)
unfolding authorize_table ready classify_request access_of
authorize_table_iff e none v = (λ h. cc h, λ w. cc (w.1))
authorize_table_iff e (some t) v = (
  λ h.
      let (k, g) = >>-eq-ok (require (valid_keys e t) unknown_key) _ h in
      let (a, c, f) =
        >>=-eq-ok (or_unclassifiable (classify_request t v.method v.escaped_path)) _ g in
      let (l, p, q) =
        >>=-eq-ok (required_level v.method v.escaped_path) _ ((or_unclassifiable_iff _ a).0 c) in
      let (u, m) = undotted_inv (has_dot_segment v.escaped_path) _ a q in
      let (r, o, same) = access_of_inv l _ a m in
      (
        t,
        refl,
        record {
          level = l;
          classified = p;
          undotted = u;
          known_keys = (require_iff _ _).0 k;
          route = r;
          chosen = (runs r).0 o;
          covered =
              subst (λ (b : Access). level_allows (resolve e b.category) b.level ≡ true) same
                ((require_iff _ _).0 f);
        },
      ),
  λ (s, q, w).
      let same : t ≡ s = cc q in
      let p = subst (λ u. IsApproved e u v) (sym same) w in
      simp (p.known_keys, p.classified, p.undotted, (runs p.route).1 p.chosen)
        ((require_iff (level_allows (resolve e p.route.category) p.level) exposure_exceeded).1
          p.covered),
)
  where
    runs :
        (r : Route)
        → (lookup_route t (lookup_method (normal_method v.method)) v.escaped_path ≡ some r)
          ↔ RunsAs t v r
    runs r = lookup_route_iff t (lookup_method (normal_method v.method)) v.escaped_path r
