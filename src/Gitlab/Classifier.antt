-- ===== src/Gitlab/Classifier.antt =====
-- internal/auth/gitlab/classifier.go: the level that a request needs, and its category.
use cynative.Base.{
  ◌-◌, Str, codes, Bool, true, false, ◌&&◌, ◌||◌, if◌then◌else◌, List, [], ◌∷◌, Option, none, some,
  str_eq, leb, length, drop, contains, split, trim_prefix, to_upper, trim_space, trim_right, Result,
  ok, err, ◌>>=◌,
}
use cynative.Authreq.Unescape.{path_unescape}
use cynative.Authreq.Path.{has_dot_segment}
use cynative.Exposure.{Level, level_read, level_write}
use cynative.Gitlab.Table.{Route, Table, strip_format_suffix, lookup_route}

-- the errors under `ErrUnclassifiable`; `unmatched` is an `UnmatchedRequestError`
pub data ClassifyError : Type 0 where
  unrecognized_method dot_segment unmatched : ClassifyError

-- `Access`
pub record Access : Type 0 where
  pub category : Str
  pub level : Level

-- `graphQLSegments`
abbrev pub graphql_segments : List Str
graphql_segments = codes "api" ∷ codes "graphql" ∷ []

-- `markdownSegments`
abbrev pub markdown_segments : List Str
markdown_segments = codes "api" ∷ codes "v4" ∷ codes "markdown" ∷ []

-- the loop of `pathEndsWith`: the suffix is taken off the last segment only
unfoldable pub segment_is : Option Str → Str → Bool
unfolding str_eq
segment_is none want = false
segment_is (some decoded) want = str_eq decoded want

unfoldable pub last_is : Option Str → Str → Bool
unfolding str_eq strip_format_suffix
last_is none want = false
last_is (some decoded) want = str_eq (strip_format_suffix decoded) want

unfoldable pub tail_is : List Str → List Str → Bool
unfolding segment_is last_is path_unescape
tail_is (seg ∷ _) (w ∷ []) = last_is (path_unescape seg) w
tail_is (seg ∷ tail) (w ∷ w' ∷ want) = segment_is (path_unescape seg) w && tail_is tail (w' ∷ want)
tail_is _ _ = true

-- `pathEndsWith`
unfoldable pub path_ends_with : Str → List Str → Bool
unfolding split trim_prefix tail_is
path_ends_with path want =
    let segs = split b'/' (trim_prefix b'/' path) in
    if leb (length want) (length segs)
    then tail_is (drop (length segs - length want) segs) want
    else false

-- `IsGraphQLEndpoint`
unfoldable pub is_graphql_endpoint : Str → Bool
unfolding path_ends_with trim_right
is_graphql_endpoint path = path_ends_with (trim_right b'/' path) graphql_segments

abbrev pub read_methods : List Str
read_methods = codes "GET" ∷ codes "HEAD" ∷ codes "OPTIONS" ∷ []

abbrev pub write_methods : List Str
write_methods = codes "POST" ∷ codes "PUT" ∷ codes "PATCH" ∷ codes "DELETE" ∷ []

-- `strings.ToUpper(strings.TrimSpace(method))`
unfoldable pub normal_method : Str → Str
unfolding to_upper trim_space
normal_method method = to_upper (trim_space method)

-- `RequiredLevel` after its first line
unfoldable pub method_level : Str → Str → Result ClassifyError Level
unfolding contains str_eq path_ends_with
method_level method escaped_path =
    if contains read_methods method
    then ok level_read
    else if contains write_methods method
    then if str_eq method (codes "POST") && path_ends_with escaped_path markdown_segments
      then ok level_read
      else ok level_write
    else err unrecognized_method

-- `RequiredLevel`
unfoldable pub required_level : Str → Str → Result ClassifyError Level
unfolding normal_method method_level
required_level method escaped_path = method_level (normal_method method) escaped_path

-- the method that `ClassifyRequest` looks up
unfoldable pub lookup_method : Str → Str
unfolding str_eq
lookup_method method =
    if str_eq method (codes "HEAD") || str_eq method (codes "OPTIONS") then codes "GET" else method

-- the end of `ClassifyRequest`
unfoldable pub access_of : Level → Option Route → Result ClassifyError Access
access_of level none = err unmatched
access_of level (some r) = ok (record { category = r.category; level = level })

-- `ClassifyRequest`
unfoldable pub classify_request : Table → Str → Str → Result ClassifyError Access
unfolding required_level has_dot_segment normal_method lookup_method lookup_route access_of
classify_request t method escaped_path = required_level method escaped_path >>= λ level.
    if has_dot_segment escaped_path
    then err dot_segment
    else access_of level (lookup_route t (lookup_method (normal_method method)) escaped_path)
