-- ===== src/Github/Classifier.antt =====
-- internal/auth/github/classifier.go: the level that a request needs, and the routes it may run as.
use cynative.Base.{
  Str, codes, Bool, ◌&&◌, ◌||◌, if◌then◌else◌, List, [], ◌∷◌, str_eq, contains, to_upper,
  trim_space, trim_right, Result, ok, err, ◌>>=◌,
}
use cynative.Authreq.Path.{has_dot_segment}
use cynative.Exposure.{Level, level_read, level_write}
use cynative.Github.Table.{Route, Table}
use cynative.Github.Lookup.{lookup_routes}

-- the errors under `ErrUnclassifiable`; `unmatched` is an `UnmatchedRequestError`
pub data ClassifyError : Type 0 where
  unrecognized_method dot_segment unmatched : ClassifyError

-- `Access`
pub record Access : Type 0 where
  pub routes : List Route
  pub level : Level

-- `IsGraphQLEndpoint`
unfoldable pub is_graphql_endpoint : Str → Bool
unfolding str_eq trim_right
is_graphql_endpoint path = str_eq (trim_right b'/' path) (codes "/graphql")

-- `readOnlyPOSTPaths`
abbrev pub read_only_post_paths : List Str
read_only_post_paths = codes "/markdown" ∷ codes "/markdown/raw" ∷ []

abbrev pub read_methods : List Str
read_methods = codes "GET" ∷ codes "HEAD" ∷ codes "OPTIONS" ∷ []

abbrev pub write_methods : List Str
write_methods = codes "POST" ∷ codes "PUT" ∷ codes "PATCH" ∷ codes "DELETE" ∷ []

-- `methodLevel`
unfoldable pub method_level : Str → Str → Result ClassifyError Level
unfolding contains str_eq
method_level method path =
    if contains read_methods method
    then ok level_read
    else if contains write_methods method
    then if str_eq method (codes "POST") && contains read_only_post_paths path
      then ok level_read
      else ok level_write
    else err unrecognized_method

-- `strings.ToUpper(strings.TrimSpace(method))`
unfoldable pub normal_method : Str → Str
unfolding to_upper trim_space
normal_method method = to_upper (trim_space method)

-- `RequiredLevel`
unfoldable pub required_level : Str → Str → Result ClassifyError Level
unfolding normal_method method_level
required_level method path = method_level (normal_method method) path

-- the method that `ClassifyRequest` looks up
unfoldable pub lookup_method : Str → Str
unfolding str_eq
lookup_method method =
    if str_eq method (codes "HEAD") || str_eq method (codes "OPTIONS") then codes "GET" else method

-- the end of `ClassifyRequest`
unfoldable pub access_of : Level → List Route → Result ClassifyError Access
access_of level [] = err unmatched
access_of level (r ∷ routes) = ok (record { routes = r ∷ routes; level = level })

-- `ClassifyRequest`; `RequiredLevel` normalises the method a second time
unfoldable pub classify_request : Table → Str → Str → Result ClassifyError Access
unfolding normal_method required_level has_dot_segment lookup_method lookup_routes access_of
classify_request t method path = required_level (normal_method method) path >>= λ level.
    if has_dot_segment path
    then err dot_segment
    else access_of level (lookup_routes t (lookup_method (normal_method method)) path)
