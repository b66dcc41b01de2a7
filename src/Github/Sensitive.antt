-- ===== src/Github/Sensitive.antt =====
-- What the admission of a table gives: no request reaches secret scanning at level none.
use mathlib.Core.List.Memᴰ
use cynative.Base.{
  Str, ◌≡◌, ◌≢◌, refl, sym, ◌∙◌, ap, subst, ◌≤◌, inl, inr, Bool, true, false, ◌&&◌, not, List, [],
  ◌∷◌, Memᴰ, Option, none, some, str_eq, str_eq_iff, split, join, any, any_iff, Bool-cases, ok, All,
  trim_prefix, to_upper,
}
use cynative.Base.TextLaws.{contains_iff, IsFree, split-join}
use cynative.Authreq.View.{View}
use cynative.Exposure.{level_none, Exposure, level_allows, lookup}
use cynative.Github.Table.{Templ, Table, split_path, split_rooted, routes, all_templates}
use cynative.Github.Lookup.{count_byte, max_path_segments, templates}
use cynative.Github.Best.{IsWinner}
use cynative.Github.Policy.{resolve, downgrades, has_segment, admit_table, secret_scanning_key}
use cynative.Github.Classifier.{normal_method, required_level, lookup_method}
use cynative.Github.Gate.{is_github_download_host, authorize_action}
use cynative.Github.Approval.{IsApproved}
use cynative.Github.Authorized.{authorize_action_iff}
use cynative.Github.Ceilings.{method_level_not_none, none_allows_none}

mem-lookup :
    (m : List (Str × List Templ)) (k : Str) (ts : List Templ) {x : Templ}
    → lookup k m ≡ some ts
    → Memᴰ x ts
    → Memᴰ x (all_templates m)
unfolding lookup all_templates
mem-lookup [] k ts h i = cc
mem-lookup ((j, us) ∷ m) k ts {x} h i = elim (Bool-cases (str_eq j k)) [
  | inl e ↦ Memᴰ.append_left (all_templates m) (subst (Memᴰ x) (sym (some_inj (simp e at h))) i)
  | inr e ↦ Memᴰ.append_right us (mem-lookup m k ts (simp e at h) i)
]
  where
    some_inj : {us' : List Templ} → some us' ≡ some ts → us' ≡ ts
    some_inj q = cc q

mem-templates :
    (t : Table) (method : Str) {x : Templ} → Memᴰ x (templates t method) → Memᴰ x (routes t)
unfolding templates routes
mem-templates t method {x} i = go (lookup (to_upper method) t.by_method) refl i
  where
    go :
        (o : Option (List Templ))
        → lookup (to_upper method) t.by_method ≡ o
        → Memᴰ x (elim o [ none ↦ [] | some ts ↦ ts ])
        → Memᴰ x (all_templates t.by_method)
    go none e j = absurd (Memᴰ.not-nil j)
    go (some ts) e j = mem-lookup t.by_method (to_upper method) ts e j

mem-split_rooted : (s x : Str) → x ≢ [] → Memᴰ x (split b'/' s) → Memᴰ x (split_rooted s)
unfolding split
mem-split_rooted [] x n i = absurd (n (Memᴰ.eq_of_singleton i))
mem-split_rooted (c ∷ s) x n i = i

mem-join-split :
    (segs : List Str) (x : Str)
    → All (IsFree b'/') segs
    → Memᴰ x segs
    → Memᴰ x (split b'/' (join b'/' segs))
mem-join-split [] x f i = absurd (Memᴰ.not-nil i)
mem-join-split (seg ∷ segs) x f i = subst (Memᴰ x) (sym (split-join b'/' seg segs f)) i

secret_ne_nil : secret_scanning_key ≢ []
secret_ne_nil e = cc e

-- `hasSegment` finds a segment of a template.
has_segment-template :
    (segs : List Str)
    → All (IsFree b'/') segs
    → Memᴰ secret_scanning_key segs
    → has_segment (b'/' ∷ join b'/' segs) secret_scanning_key ≡ true
unfolding has_segment split_path trim_prefix
has_segment-template segs f i = (contains_iff _ secret_scanning_key).1 (
    mem-split_rooted (join b'/' segs) secret_scanning_key secret_ne_nil
      (mem-join-split segs secret_scanning_key f i))

and_not : (a b : Bool) → (a && not b) ≡ false → a ≡ true → b ≡ true
and_not true true h e = refl
and_not true false h e = cc h
and_not false b h e = cc e

none_downgrades :
    (t : Table) {x : Templ} → admit_table t ≡ true → Memᴰ x (routes t) → downgrades x ≡ false
unfolding admit_table
none_downgrades t {x} h i = elim (Bool-cases (downgrades x)) [
  | inl e ↦
      let found = (any_iff downgrades (routes t)).1 (x, i, e) in
      cc ((not_true (any downgrades (routes t)) h), found)
  | inr e ↦ e
]
  where
    not_true : (b : Bool) → not b ≡ true → b ≡ false
    not_true true q = cc q
    not_true false q = refl

-- In an admitted table, a template with the literal segment secret-scanning has the category of
-- secret scanning.
admitted_category :
    (t : Table) {x : Templ}
    → admit_table t ≡ true
    → Memᴰ x (routes t)
    → All (IsFree b'/') x.segments
    → Memᴰ secret_scanning_key x.segments
    → x.route.category ≡ secret_scanning_key
unfolding downgrades
admitted_category t {x} h i f m =
    (str_eq_iff x.route.category secret_scanning_key).0
      (and_not _ _ (none_downgrades t h i) (has_segment-template x.segments f m))

-- With an admitted table and each key of secret scanning at level none, a request that is not for a
-- download host, with a path of at most 8192 slashes, is denied if a template that matches the path
-- with the most literal segments names secret-scanning; the segments of the template hold no slash.
pub secret_scanning_denied :
    (e : Exposure) (t : Table) (v : View) (x : Templ)
    → count_byte b'/' v.escaped_path ≤ max_path_segments
    → is_github_download_host v.hostname ≡ false
    → admit_table t ≡ true
    → ((sub : Str) → resolve e secret_scanning_key sub ≡ level_none)
    → IsWinner t
        (templates t (lookup_method (normal_method v.method)))
        (split_path v.escaped_path)
        x
    → All (IsFree b'/') x.segments
    → Memᴰ secret_scanning_key x.segments
    → authorize_action e (some t) v ≢ ok tt
unfolding required_level
secret_scanning_denied e t v x short host ad zero w f m h =
    elim ((authorize_action_iff e (some t) v short).0 h).2 [
      | inl d ↦ cc (host, d.0)
      | inr (_, (t', q, a)) ↦
          let same : t' ≡ t = some_inj (sym q) in
          let p = subst (λ u. IsApproved e u v) same a in
          let cat = admitted_category t ad (mem-templates t _ w.listed) f m in
          let c = p.covered x.route (inl (x, w, refl)) in
          let least_level : resolve e x.route.category x.route.subcategory ≡ level_none =
            ap (λ k. resolve e k x.route.subcategory) cat ∙ zero x.route.subcategory in
          let least =
            none_allows_none p.level (subst (λ l. level_allows l p.level ≡ true) least_level c) in
          method_level_not_none (normal_method (normal_method v.method)) v.escaped_path
            (p.classified ∙ ap ok least)
    ]
  where
    some_inj : {a b : Table} → some a ≡ some b → a ≡ b
    some_inj q = cc q
