-- ===== src/Authreq/Path.antt =====
-- internal/auth/authreq/path.go: the readings of a request path, and the dot segments.
use cynative.Base.{
  Str, codes, Bool, false, ◌||◌, not, if◌then◌else◌, List, [], ◌∷◌, ◌++◌, Option, none, some, any,
  all, str_eq, strs_eq, split, trim_prefix, cut_before,
}
use cynative.Authreq.View.{View}
use cynative.Authreq.Unescape.{path_unescape}

-- `pathSegments`
abbrev rooted : Str → Str
rooted [] = codes "/"
rooted (c ∷ p) = c ∷ p

unfoldable pub path_segments : Str → List Str
unfolding split trim_prefix
path_segments p = split b'/' (trim_prefix b'/' (rooted p))

-- `appendReading`
unfoldable pub append_reading : List (List Str) → List Str → List (List Str)
unfolding any strs_eq
append_reading readings segs =
    if any (λ r. strs_eq r segs) readings then readings else readings ++ segs ∷ []

-- `allEmpty`
unfoldable pub all_empty : List Str → Bool
unfolding all str_eq
all_empty segs = all (λ s. str_eq s []) segs

-- `segs[:len(segs)-1]` and `segs[len(segs)-1]`
unfoldable pub init : List Str → List Str
init [] = []
init (s ∷ []) = []
init (s ∷ s' ∷ segs) = s ∷ init (s' ∷ segs)

unfoldable pub last_segment : List Str → Str
last_segment [] = []
last_segment (s ∷ []) = s
last_segment (s ∷ s' ∷ segs) = last_segment (s' ∷ segs)

-- `dropTrailingEmpty`; `none` is a false second result
unfoldable pub drop_trailing_empty : List Str → Option (List Str)
unfolding init last_segment all_empty str_eq
drop_trailing_empty [] = none
drop_trailing_empty (s ∷ []) = none
drop_trailing_empty (s ∷ s' ∷ segs) =
    if not (str_eq (last_segment (s ∷ s' ∷ segs)) [])
    then none
    else if all_empty (init (s ∷ s' ∷ segs))
    then none
    else some (init (s ∷ s' ∷ segs))

-- one round of the loop of `withTrailingDrops`
unfoldable pub append_trimmed : List (List Str) → Option (List Str) → List (List Str)
unfolding append_reading
append_trimmed readings none = readings
append_trimmed readings (some trimmed) = append_reading readings trimmed

-- the loop of `withTrailingDrops`, over the readings that were there before it
unfoldable pub drops_loop : List (List Str) → List (List Str) → List (List Str)
unfolding append_trimmed drop_trailing_empty
drops_loop readings [] = readings
drops_loop readings (r ∷ original) =
    drops_loop (append_trimmed readings (drop_trailing_empty r)) original

-- `withTrailingDrops`
unfoldable pub with_trailing_drops : List (List Str) → List (List Str)
unfolding drops_loop
with_trailing_drops readings = drops_loop readings readings

-- `PathReadings`
unfoldable pub path_readings : View → List (List Str)
unfolding append_reading path_segments with_trailing_drops
path_readings v =
    let readings = append_reading [] (path_segments v.escaped_path) in
    with_trailing_drops (append_reading readings (path_segments v.path))

-- `WireReadings`
unfoldable pub wire_readings : View → List (List Str)
unfolding append_reading path_segments with_trailing_drops
wire_readings v = with_trailing_drops (append_reading [] (path_segments v.escaped_path))

-- the test of one segment in `HasDotSegment`
unfoldable pub is_dot : Option Str → Bool
unfolding str_eq
is_dot none = false
is_dot (some decoded) = str_eq decoded (codes ".") || str_eq decoded (codes "..")

unfoldable pub is_dot_segment : Str → Bool
unfolding is_dot cut_before path_unescape
is_dot_segment seg = is_dot (path_unescape (cut_before b';' seg))

-- `HasDotSegment`
unfoldable pub has_dot_segment : Str → Bool
unfolding any split is_dot_segment
has_dot_segment escaped_path = any is_dot_segment (split b'/' escaped_path)
