-- ===== src/Hints/Tests.antt =====
-- Distances, and a near miss.
use cynative.Base.{ℕ, ◌≡◌, ◌≤◌, refl, [], ◌∷◌, codes}
use cynative.Hints.Distance.{edit_distance}
use cynative.Hints.Edits.{Edits}
use cynative.Hints.Shortest.{edit_distance-shortest}
use cynative.Hints.Candidates.{candidate_routes, Route}

kitten : edit_distance (codes "kitten") (codes "sitting") ≡ 3
unfolding edit_distance
kitten = refl

edit_distance-shortest_example :
    Edits (codes "bucket") (codes "buckets") (edit_distance (codes "bucket") (codes "buckets"))
    × ((n : ℕ)
        → Edits (codes "bucket") (codes "buckets") n
        → edit_distance (codes "bucket") (codes "buckets") ≤ n)
edit_distance-shortest_example = edit_distance-shortest (codes "bucket") (codes "buckets")

abbrev list_users : Route
list_users = record {
  operation = codes "ListUsers";
  method = codes "GET";
  template = codes "/users/{id}";
}

misspelt :
    candidate_routes (λ s. s) (list_users ∷ []) (codes "get") (codes "/user/7") ≡ list_users ∷ []
unfolding candidate_routes
misspelt = refl
