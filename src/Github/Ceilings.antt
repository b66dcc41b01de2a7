-- ===== src/Github/Ceilings.antt =====
-- What a ceiling of read and an admitted table mean for the GitHub gate.
use cynative.Base.{
  Str, codes, ◌≡◌, ◌≢◌, refl, ap, ◌⊎◌, ◌≤◌, inl, inr, Bool, true, false, &&_iff, if◌then◌else◌, [],
  ◌∷◌, ◌++◌, Memᴰ, Option, none, some, str_eq_iff, arith, contains, Result, ok, err,
}
use cynative.Base.TextLaws.{contains_iff}
use cynative.Authreq.View.{View}
use cynative.Exposure.{
  Level, level_none, level_read, level_write, Exposure, level_allows, lookup, level_at, default_key,
}
use cynative.Github.Table.{Table}
use cynative.Github.Lookup.{count_byte, max_path_segments}
use cynative.Github.Policy.{resolve, resolve_category}
use cynative.Github.Classifier.{
  ClassifyError, normal_method, required_level, method_level, read_methods, write_methods,
  read_only_post_paths,
}
use cynative.Github.Gate.{is_github_download_host, authorize_action}
use cynative.Github.Authorized.{authorize_action_iff}

-- No key of the exposure has the ceiling of write.
abbrev pub HasNoWrite : Exposure → Type 0
HasNoWrite e = (k : Str) → lookup k e ≢ some level_write

default-no_write :
    (o : Option Level) (d : Level)
    → o ≢ some level_write
    → d ≢ level_write
    → elim o [ none ↦ d | some l ↦ l ] ≢ level_write
default-no_write none d n m h = m h
default-no_write (some l) d n m h = n (ap some h)

level_at-no_write : (e : Exposure) (k : Str) → HasNoWrite e → level_at e k ≢ level_write
unfolding level_at
level_at-no_write e k n = default-no_write (lookup k e) level_none (n k) (λ h. cc h)

resolve_category-no_write :
    (e : Exposure) (c : Str) → HasNoWrite e → resolve_category e c ≢ level_write
unfolding resolve_category
resolve_category-no_write e c n =
    default-no_write (lookup c e) _ (n c) (level_at-no_write e default_key n)

resolve-no_write : (e : Exposure) (c s : Str) → HasNoWrite e → resolve e c s ≢ level_write
unfolding resolve
resolve-no_write e c [] n = resolve_category-no_write e c n
resolve-no_write e c (b ∷ s) n =
    default-no_write (lookup (c ++ b'/' ∷ b ∷ s) e) _ (n _) (resolve_category-no_write e c n)

write_needs_write : (l : Level) → l ≢ level_write → level_allows l level_write ≡ false
unfolding level_allows
write_needs_write level_none n = refl
write_needs_write level_read n = refl
write_needs_write level_write n = absurd (n refl)

pub none_allows_none : (l : Level) → level_allows level_none l ≡ true → l ≡ level_none
unfolding level_allows
none_allows_none level_none h = refl
none_allows_none level_read h = ground arith
none_allows_none level_write h = ground arith

-- The request only reads: its method is GET, HEAD or OPTIONS, or it is a POST to one of the paths
-- whose POST renders text.
abbrev pub IsRead : View → Type 0
IsRead v =
    let method = normal_method (normal_method v.method) in
    Memᴰ method read_methods ⊎ ((method ≡ codes "POST") × Memᴰ v.escaped_path read_only_post_paths)

level_of : Bool → Bool → Bool → Result ClassifyError Level
level_of reads writes renders =
    if reads
    then ok level_read
    else if writes
    then (if renders then ok level_read else ok level_write)
    else err ClassifyError.unrecognized_method

level_of-read : (r w p : Bool) → level_of r w p ≡ ok level_read → (r ≡ true) ⊎ (p ≡ true)
unfolding level_of
level_of-read true w p h = inl refl
level_of-read false true true h = inr refl
level_of-read false true false h = cc h
level_of-read false false p h = cc h

level_of-not_none : (r w p : Bool) → level_of r w p ≢ ok level_none
unfolding level_of
level_of-not_none true w p h = cc h
level_of-not_none false true true h = cc h
level_of-not_none false true false h = cc h
level_of-not_none false false p h = cc h

method_level_read :
    (m p : Str)
    → method_level m p ≡ ok level_read
    → Memᴰ m read_methods ⊎ ((m ≡ codes "POST") × Memᴰ p read_only_post_paths)
unfolding method_level level_of
method_level_read m p h =
    let post = &&_iff _ _ (str_eq_iff m (codes "POST")) (contains_iff read_only_post_paths p) in
    elim (level_of-read (contains read_methods m) (contains write_methods m) _ h) [
      | inl r ↦ inl ((contains_iff read_methods m).0 r)
      | inr r ↦ inr (post.0 r)
    ]

pub method_level_not_none : (m p : Str) → method_level m p ≢ ok level_none
unfolding method_level level_of
method_level_not_none m p h =
    level_of-not_none (contains read_methods m) (contains write_methods m) _ h

-- If no key has the ceiling of write, each request with a path of at most 8192 slashes that is let
-- through, and is not for a download host, only reads.
pub authorize_action-IsRead :
    (e : Exposure) (tables : Option Table) (v : View)
    → count_byte b'/' v.escaped_path ≤ max_path_segments
    → HasNoWrite e
    → is_github_download_host v.hostname ≡ false
    → authorize_action e tables v ≡ ok tt
    → IsRead v
unfolding required_level
authorize_action-IsRead e tables v short n host h =
    elim ((authorize_action_iff e tables v short).0 h).2 [
      | inl d ↦ cc (host, d.0)
      | inr (_, (t, _, a)) ↦
          by_level a.level a.classified (resolve e a.route.category a.route.subcategory)
            (a.covered a.route a.reached)
            (resolve-no_write e a.route.category a.route.subcategory n)
    ]
  where
    by_level :
        (l : Level)
        → method_level (normal_method (normal_method v.method)) v.escaped_path ≡ ok l
        → (c : Level) → level_allows c l ≡ true
        → c ≢ level_write
        → IsRead v
    by_level level_none q c a m =
        absurd (method_level_not_none (normal_method (normal_method v.method)) v.escaped_path q)
    by_level level_read q c a m =
        method_level_read (normal_method (normal_method v.method)) v.escaped_path q
    by_level level_write q c a m = cc (write_needs_write c m, a)
