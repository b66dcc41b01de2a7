-- ===== src/K8s/Paths.antt =====
-- `Classify` reads back the path of a resource: the fields that a client builds a URL from.
use cynative.Base.{
  Str, codes, ◌≡◌, sym, ap, ◌∙◌, ◌≢◌, true, false, List, [], ◌∷◌, Option, arith, str_eq, str_eq_iff,
  eq-false_iff, to_lower, join, split, All,
}
use cynative.Base.TextLaws.{IsSegment, All-IsSegment-IsFree, split-join, trim-join, join-push}
use cynative.K8s.Request.{Values, empty, resource_namespaces}
use cynative.K8s.Classify.{
  split_path, is_namespace_subresource, consume_namespace, consume_resource, apply_verb,
  method_verb, watch_verb, resource_info, fill, classify_parts, classify, split_trimmed,
}

-- `splitPath` undoes a rooted join of non-empty segments.
pub split_path-join :
    (seg : Str) (segs : List Str)
    → All (IsSegment b'/') (seg ∷ segs)
    → split_path (b'/' ∷ join b'/' (seg ∷ segs)) ≡ seg ∷ segs
unfolding split_path
split_path-join [] segs h = absurd h.0
split_path-join (c ∷ s) segs h =
    ap split_trimmed (trim-join b'/' (c ∷ s) segs h)
    ∙ ap split_trimmed (join-push b'/' c s segs)
    ∙ ap (split b'/') (sym (join-push b'/' c s segs))
    ∙ split-join b'/' (c ∷ s) segs (All-IsSegment-IsFree b'/' ((c ∷ s) ∷ segs) h)

-- The path of a namespaced object of a named API group, with what follows the name.
abbrev pub object_path : Str → Str → Str → Str → Str → List Str → Str
object_path group version ns res name after =
    b'/'
    ∷ join b'/' (codes "apis" ∷ group ∷ version ∷ resource_namespaces ∷ ns ∷ res ∷ name ∷ after)

-- The first segment after the name.
abbrev pub first_or_empty : List Str → Str
first_or_empty [] = empty
first_or_empty (sub ∷ _) = sub

fill_object :
    (m path g v ns res name : Str) (query : Option Values) (after : List Str)
    → is_namespace_subresource res ≡ false
    → name ≢ empty
    → fill m query (resource_info path g v) (resource_namespaces ∷ ns ∷ res ∷ name ∷ after)
      ≡ record {
        is_resource_request = true;
        verb = watch_verb query (method_verb m);
        api_group = g;
        api_version = v;
        namespace = ns;
        resource = res;
        subresource = first_or_empty after;
        name = name;
        path = path;
      }
unfolding fill consume_namespace consume_resource apply_verb str_eq
fill_object m path g v ns res name query [] h n =
    let k = (eq-false_iff _ (str_eq_iff name empty)).1 n in simp (h, k)
fill_object m path g v ns res name query (sub ∷ after) h n =
    let k = (eq-false_iff _ (str_eq_iff name empty)).1 n in simp (h, k)

-- The path of a namespaced object is read back: `Classify` returns the group, version, namespace,
-- resource, name and subresource that the path was built from, if none of these segments is empty
-- or holds a slash and the resource is not spelled like a subresource of the namespace. The verb
-- is the one of the method.
pub classify-object_path :
    (method g v ns res name : Str) (query : Option Values) (after : List Str)
    → All (IsSegment b'/') (g ∷ v ∷ ns ∷ res ∷ name ∷ after)
    → is_namespace_subresource res ≡ false
    → classify method (object_path g v ns res name after) query ≡ record {
      is_resource_request = true;
      verb = watch_verb query (method_verb (to_lower method));
      api_group = g;
      api_version = v;
      namespace = ns;
      resource = res;
      subresource = first_or_empty after;
      name = name;
      path = object_path g v ns res name after;
    }
unfolding classify
classify-object_path method g v ns res [] query after segs h = absurd segs.1.1.1.1.0
classify-object_path method g v ns res (c ∷ name) query after segs h =
    let path = object_path g v ns res (c ∷ name) after in
    let fixed : IsSegment b'/' (codes "apis") × IsSegment b'/' resource_namespaces = ground arith in
    let segments = codes "apis" ∷ g ∷ v ∷ resource_namespaces ∷ ns ∷ res ∷ (c ∷ name) ∷ after in
    let free : All (IsSegment b'/') segments =
      (fixed.0, (segs.0, (segs.1.0, (fixed.1, segs.1.1)))) in
    ap (classify_parts (to_lower method) path query) (
      split_path-join (codes "apis") (g ∷ v ∷ resource_namespaces ∷ ns ∷ res ∷ (c ∷ name) ∷ after)
        free)
    ∙ fill_object (to_lower method) path g v ns res (c ∷ name) query after h (λ e. cc e)
