-- ===== src/Azure/Verbs.antt =====
-- The verb of a derived action, by the method of its request.
use cynative.Base.{
  trim_suffix, ℕ, Str, codes, ◌≡◌, refl, ◌⊎◌, inl, inr, true, ◌||◌, List, [], ◌∷◌, ◌++◌,
  append_assoc, Memᴰ, Option, none, some, leb, length, contains, str_eq, str_eq_iff, to_upper,
  Bool-cases, Result, ok, >>=-eq-ok, ||_iff, subst, to_lower, ◌&&◌, ◌+◌,
}
use cynative.Base.TextLaws.{contains_iff}
use cynative.Authreq.View.{View}
use cynative.Azure.Path.{
  Action, ActionError, verb_read, mk, split_path, non_canonical_path, resolve_namespace, route_loop,
  provider_less_routes, match_template, provider_less_action, poll_loop, poll_action, poll_segments,
  is_poll_shape,
}
use cynative.Azure.Types.{resolve_resource_type}
use cynative.Azure.Classifier.{
  Catalog, or_unavailable, post_read_allow_list, allow_key, action_of, distinct, post_verb,
  post_action, verb_action, typed_action, poll_or_typed, namespace_action, derive_action,
}

-- The verb is read, and the allow-list names the operation.
abbrev pub IsListedRead : Action → Type 0
IsListedRead a =
    (a.verb ≡ verb_read)
    × ((token : Str) × Memᴰ (allow_key a.namespace a.resource_type token) post_read_allow_list)

-- The verb is an action of the resource.
abbrev pub IsPostAction : Action → Type 0
IsPostAction a = (token : Str) × (a.verb ≡ token ++ codes "/action")

-- The verb that the method stands for.
abbrev pub IsVerb : Str → Action → Type 0
IsVerb method a =
    ((method ≡ codes "GET") × (a.verb ≡ verb_read))
    ⊎ ((method ≡ codes "PUT") ⊎ (method ≡ codes "PATCH")) × (a.verb ≡ codes "write")
    ⊎ (method ≡ codes "DELETE") × (a.verb ≡ codes "delete")
    ⊎ (method ≡ codes "POST") × (IsListedRead a ⊎ IsPostAction a)

-- The full name is made of the three parts.
abbrev pub IsCanonical : Action → Type 0
IsCanonical a = a.full ≡ a.namespace ++ b'/' ∷ a.resource_type ++ b'/' ∷ a.verb

-- What every answer of the classifier for this method satisfies.
abbrev pub IsDerived : Str → Action → Type 0
IsDerived method a = IsVerb method a × IsCanonical a

get-IsDerived :
    (method namespace type_path : Str)
    → method ≡ codes "GET"
    → IsDerived method (mk namespace type_path verb_read)
unfolding mk
get-IsDerived method namespace type_path e = (inl (e, refl), refl)

mk-IsCanonical : (namespace type_path verb : Str) → IsCanonical (mk namespace type_path verb)
unfolding mk
mk-IsCanonical namespace type_path verb = refl

ok_inj : {a b : Action} → ◌≡◌ {A = Result ActionError Action} (ok a) (ok b) → a ≡ b
ok_inj h = cc h

some_inj : {a b : Action} → some a ≡ some b → a ≡ b
some_inj h = cc h

route_loop-IsDerived :
    (method : Str) (routes : List (List Str × Str)) (segs : List Str) (a : Action)
    → method ≡ codes "GET"
    → route_loop routes segs ≡ ok a
    → IsDerived method a
unfolding route_loop
route_loop-IsDerived method [] segs a g h = cc h
route_loop-IsDerived method ((template, resource) ∷ routes) segs a g h =
    elim (Bool-cases (match_template template segs)) [
      | inl e ↦ subst (IsDerived method) (ok_inj (rw e at h)) (get-IsDerived method _ _ g)
      | inr e ↦ route_loop-IsDerived method routes segs a g (rw e at h)
    ]

provider_less-IsDerived :
    (method : Str) (segs : List Str) (a : Action)
    → provider_less_action method segs ≡ ok a
    → IsDerived method a
unfolding provider_less_action
provider_less-IsDerived method segs a h = elim (Bool-cases (str_eq method (codes "GET"))) [
  | inl e ↦
      route_loop-IsDerived method provider_less_routes segs a ((str_eq_iff _ _).0 e) (rw e at h)
  | inr e ↦ cc (rw e at h)
]

poll_loop-IsDerived :
    (method namespace : Str) (i n : ℕ) (rest : List Str) (a : Action)
    → method ≡ codes "GET"
    → poll_loop namespace i n rest ≡ some a
    → IsDerived method a
unfolding poll_loop
poll_loop-IsDerived method namespace i n [] a g h = cc h
poll_loop-IsDerived method namespace i n (s ∷ []) a g h =
    elim (Bool-cases (contains poll_segments (to_lower s) && is_poll_shape i n)) [
      | inl e ↦ subst (IsDerived method) (some_inj (rw e at h)) (get-IsDerived method _ _ g)
      | inr e ↦ cc (rw e at h)
    ]
poll_loop-IsDerived method namespace i n (s ∷ x ∷ rest) a g h =
    elim (Bool-cases (contains poll_segments (to_lower s) && is_poll_shape i n)) [
      | inl e ↦ subst (IsDerived method) (some_inj (rw e at h)) (get-IsDerived method _ _ g)
      | inr e ↦ poll_loop-IsDerived method namespace (i + 2) n rest a g (rw e at h)
    ]

action_of-IsCanonical :
    (namespace type_path token : Str) → IsCanonical (action_of namespace type_path token)
unfolding action_of
action_of-IsCanonical namespace type_path token =
    append_assoc (namespace ++ b'/' ∷ trim_suffix type_path (b'/' ∷ token)) (b'/' ∷ token)
      (codes "/action")

listed :
    (namespace type_path token : Str)
    → contains post_read_allow_list (allow_key namespace type_path token) ≡ true
    → IsListedRead (mk namespace type_path verb_read)
unfolding mk
listed namespace type_path token h = (refl, (token, (contains_iff _ _).0 h))

acting : (namespace type_path token : Str) → IsPostAction (action_of namespace type_path token)
unfolding action_of
acting namespace type_path token = (token, refl)

post_verb-IsDerived :
    (method namespace type_path token : Str) (verbs : List Str) (a : Action)
    → method ≡ codes "POST"
    → post_verb namespace type_path token verbs ≡ ok a
    → IsDerived method a
unfolding post_verb
post_verb-IsDerived method namespace type_path token verbs a p h =
    elim (Bool-cases (leb (length (distinct verbs)) 1)) [
      | inr e ↦ cc (rw e at h)
      | inl e ↦
          elim (Bool-cases (contains post_read_allow_list (allow_key namespace type_path token))) [
            | inl f ↦ subst (IsDerived method) (ok_inj (rw (e, f) at h)) (
              inr (inr (inr (p, inl (listed namespace type_path token f)))),
              mk-IsCanonical _ _ _,
            )
            | inr f ↦ subst (IsDerived method) (ok_inj (rw (e, f) at h)) (
              inr (inr (inr (p, inr (acting namespace type_path token)))),
              action_of-IsCanonical namespace type_path token,
            )
          ]
    ]

verb_action-IsDerived :
    (cat : Catalog) (method namespace type_path token : Str) (a : Action)
    → verb_action cat method namespace type_path token ≡ ok a
    → IsDerived method a
unfolding verb_action post_action mk
verb_action-IsDerived cat method namespace type_path token a h =
    elim (Bool-cases (str_eq method (codes "GET"))) [
      | inl e ↦
          subst (IsDerived method) (ok_inj (rw e at h))
            (get-IsDerived method _ _ ((str_eq_iff _ _).0 e))
      | inr e ↦ elim (Bool-cases (str_eq method (codes "PUT") || str_eq method (codes "PATCH"))) [
        | inl f ↦
            let m =
              (||_iff _ _ (str_eq_iff method (codes "PUT")) (str_eq_iff method (codes "PATCH"))).0
                f in
            subst (IsDerived method) (ok_inj (rw (e, f) at h)) (inr (inl (m, refl)), refl)
        | inr f ↦ elim (Bool-cases (str_eq method (codes "DELETE"))) [
          | inl g ↦
              subst (IsDerived method) (ok_inj (rw (e, f, g) at h))
                (inr (inr (inl ((str_eq_iff _ _).0 g, refl))), refl)
          | inr g ↦ elim (Bool-cases (str_eq method (codes "POST"))) [
            | inl p ↦
                let (verbs, _, k) =
                  >>=-eq-ok (or_unavailable (cat.lookup_operation namespace type_path token))
                    (post_verb namespace type_path token) (rw (e, f, g, p) at h) in
                post_verb-IsDerived method namespace type_path token verbs a ((str_eq_iff _ _).0 p)
                  k
            | inr p ↦ cc (rw (e, f, g, p) at h)
          ]
        ]
      ]
    ]

namespace_action-IsDerived :
    (cat : Catalog) (method : Str) (segs : List Str) (found : Option (Str × List Str)) (a : Action)
    → namespace_action cat method segs found ≡ ok a
    → IsDerived method a
unfolding namespace_action poll_action poll_or_typed typed_action
namespace_action-IsDerived cat method segs none a h = provider_less-IsDerived method segs a h
namespace_action-IsDerived cat method segs (some (namespace, rest)) a h =
    go (poll_action method namespace rest) refl h
  where
    polled : (b : Action) → poll_action method namespace rest ≡ some b → IsDerived method b
    polled b e = elim (Bool-cases (str_eq method (codes "GET"))) [
      | inl g ↦
          poll_loop-IsDerived method namespace 0 (length rest) rest b ((str_eq_iff _ _).0 g)
            (rw g at e)
      | inr g ↦ cc (rw g at e)
    ]

    go :
        (o : Option Action)
        → poll_action method namespace rest ≡ o
        → poll_or_typed cat method namespace rest o ≡ ok a
        → IsDerived method a
    go (some b) e k = subst (IsDerived method) (ok_inj k) (polled b e)
    go none e k =
        let (types, _, l) = >>=-eq-ok (or_unavailable (cat.resource_types namespace)) _ k in
        let (found, _, m) = >>=-eq-ok (resolve_resource_type method namespace types rest) _ l in
        verb_action-IsDerived cat method namespace found.0 found.1 a m

-- Whatever the catalog holds, a derived action has the verb of its method: a GET reads, a PUT or
-- PATCH writes, a DELETE deletes, and a POST is an action of the resource unless the allow-list
-- makes it a read. Its full name is its namespace, resource type and verb.
pub derive_action-IsDerived :
    (cat : Catalog) (v : View) (a : Action)
    → derive_action cat v ≡ ok a
    → IsDerived (to_upper v.method) a
unfolding derive_action
derive_action-IsDerived cat v a h =
    elim (Bool-cases (non_canonical_path v.escaped_path (split_path v.path))) [
      | inl e ↦ cc (rw e at h)
      | inr e ↦
          namespace_action-IsDerived cat (to_upper v.method) (split_path v.path)
            (resolve_namespace (split_path v.path)) a (rw e at h)
    ]
