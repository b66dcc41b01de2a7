-- ===== src/Github/Tests.antt =====
-- Runs of the GitHub gate on a small table, and its theorems at concrete requests.
use mathlib.Core.List.Memᴰ
use cynative.Base.{
  String, Str, codes, ◌≡◌, ◌≢◌, refl, ◌↔◌, ◌⊎◌, inl, inr, true, false, List, [], ◌∷◌, Memᴰ, some,
  str_eq, arith, Bool-cases, Result, ok, err,
}
use cynative.Authreq.View.{View}
use cynative.Authority.{defaulted_port, https_port}
use cynative.Exposure.{level_none, lookup, default_key}
use cynative.Github.Table.{Templ, Table, split_path, literals}
use cynative.Github.Match.{match_template}
use cynative.Github.Matching.{Matches}
use cynative.Github.Template.{match_template_iff}
use cynative.Github.Lookup.{templates, lookup_routes, count_byte}
use cynative.Github.Best.{IsWinner}
use cynative.Github.Routing.{Wins, WinsTrimmed, lookup_routes_iff}
use cynative.Github.Policy.{resolve, baseline_exposure, admit_table, secret_scanning_key}
use cynative.Github.Classifier.{is_graphql_endpoint, lookup_method, normal_method}
use cynative.Github.Gate.{GateError, authorize_action, exposure_exceeded, is_github_download_host}
use cynative.Github.Authorized.{IsDownload, IsApiCall, authorize_action_iff}
use cynative.Github.Ceilings.{HasNoWrite, IsRead, authorize_action-IsRead}
use cynative.Github.Sensitive.{secret_scanning_denied}

abbrev templ : List Str → String → String → Templ
templ segs category subcategory = record {
  segments = segs;
  route = record { category = codes category; subcategory = codes subcategory };
}

abbrev repo : Templ
repo = templ (codes "repos" ∷ codes "{owner}" ∷ codes "{repo}" ∷ []) "repos" "repos"

abbrev contents : Templ
contents =
    templ
      (codes "repos" ∷ codes "{owner}" ∷ codes "{repo}" ∷ codes "contents" ∷ codes "{path}" ∷ [])
      "repos" "contents"

abbrev alerts : Templ
alerts =
    templ (codes "repos" ∷ codes "{owner}" ∷ codes "{repo}" ∷ codes "secret-scanning" ∷ [])
      "secret-scanning" "secret-scanning"

abbrev small : Table
small = record {
  by_method = (codes "GET", alerts ∷ contents ∷ repo ∷ []) ∷ (codes "DELETE", repo ∷ []) ∷ [];
  multi_segment = (codes "path", true) ∷ [];
}

abbrev sent : String → String → View
sent method path = record {
  method = codes method;
  hostname = codes "api.github.com";
  port = [];
  path = codes path;
  escaped_path = codes path;
  raw_query = [];
  body = [];
}

abbrev ask : String → String → Result GateError (Unit {0})
ask method path = authorize_action baseline_exposure (some small) (sent method path)

runs :
    (ask "get" "/repos/o/r" ≡ ok tt)
    × (ask "GET" "/repos/o/r/contents/a/b/c/" ≡ ok tt)
    × (ask "DELETE" "/repos/o/r" ≡ err exposure_exceeded)
    × (ask "GET" "/repos/o/r/secret-scanning" ≡ err exposure_exceeded)
unfolding authorize_action
runs = (refl, refl, refl, refl)

small-admitted : admit_table small ≡ true
unfolding admit_table
small-admitted = refl

abbrev file_path : List Str
file_path = codes "repos" ∷ codes "o" ∷ codes "r" ∷ codes "contents" ∷ codes "a" ∷ codes "b" ∷ []

match_template_iff_example :
    (match_template small contents.segments file_path ≡ true)
    ↔ Matches small contents.segments file_path
match_template_iff_example = match_template_iff small contents.segments file_path

abbrev repo_path : Str
repo_path = codes "/repos/o/r/"

lookup_routes_iff_example : Memᴰ repo.route (lookup_routes small (codes "GET") repo_path) ↔ (
    Wins small (templates small (codes "GET")) (split_path repo_path) repo.route
    ⊎ WinsTrimmed small (templates small (codes "GET")) (split_path repo_path) repo.route)
unfolding count_byte
lookup_routes_iff_example = lookup_routes_iff small (codes "GET") repo_path repo.route (omega arith)

abbrev get_repo : View
get_repo = sent "GET" "/repos/o/r"

authorize_action_iff_example :
    (authorize_action baseline_exposure (some small) get_repo ≡ ok tt) ↔ (
      (defaulted_port get_repo.port ≡ https_port)
      × (is_graphql_endpoint get_repo.escaped_path ≡ false)
      × (IsDownload get_repo ⊎ IsApiCall baseline_exposure (some small) get_repo))
unfolding count_byte
authorize_action_iff_example =
    authorize_action_iff baseline_exposure (some small) get_repo (omega arith)

baseline-no_write : HasNoWrite baseline_exposure
unfolding lookup
baseline-no_write k h =
    ground (arith, Bool-cases (str_eq default_key k), Bool-cases (str_eq secret_scanning_key k))

authorize_action-IsRead_example : IsRead get_repo
unfolding count_byte is_github_download_host authorize_action
authorize_action-IsRead_example =
    authorize_action-IsRead baseline_exposure (some small) get_repo (omega arith) baseline-no_write
      refl refl

abbrev list_alerts : View
list_alerts = sent "GET" "/repos/o/r/secret-scanning"

alerts-IsWinner :
    IsWinner small
      (templates small (lookup_method (normal_method list_alerts.method)))
      (split_path list_alerts.escaped_path)
      alerts
unfolding templates lookup_method normal_method split_path match_template literals
alerts-IsWinner = record {
  listed = Memᴰ.head refl;
  matches = (match_template_iff small alerts.segments (split_path list_alerts.escaped_path)).0 refl;
  most = λ y m n. elim (Memᴰ.cases_cons m) [
    | inl e ↦ rw e (omega arith)
    | inr k ↦ elim (Memᴰ.cases_cons k) [
      | inl e ↦ cc (
          (match_template_iff small contents.segments (split_path list_alerts.escaped_path)).1
            (rw e at n))
      | inr j ↦ rw (Memᴰ.eq_of_singleton j) (omega arith)
    ]
  ];
}

none_below : (sub : Str) → resolve baseline_exposure secret_scanning_key sub ≡ level_none
unfolding resolve str_eq
none_below [] = refl
none_below (c ∷ sub) = refl

secret_scanning_denied_example : authorize_action baseline_exposure (some small) list_alerts ≢ ok tt
unfolding count_byte is_github_download_host resolve
secret_scanning_denied_example =
    secret_scanning_denied baseline_exposure small list_alerts alerts (omega arith) refl
      small-admitted none_below alerts-IsWinner (ground arith)
      (Memᴰ.tail (Memᴰ.tail (Memᴰ.tail (Memᴰ.head refl))))
