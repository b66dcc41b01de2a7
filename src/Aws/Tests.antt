-- ===== src/Aws/Tests.antt =====
-- A cache of one entry, an IAM that allows one action, and a model of one operation.
use cynative.Base.{
  ℕ, suc, ◌≡◌, ◌≢◌, refl, sym, ◌↔◌, ◌⊎◌, inl, inr, Bool, true, false, if◌then◌else◌, Str, codes,
  List, [], ◌∷◌, map, all, Option, none, some, str_eq, str_eq_iff, ok, Bool-cases,
}
use cynative.Aws.Model.{ServiceModel, ParsedHost, protocol_aws_json10}
use cynative.Aws.Rest.{Request}
use cynative.Aws.Actions.{Registries, source_none, source_derived, source_permissionless, resolve}
use cynative.Aws.Evaluator.{Cache, Iam, decision_allowed, ask}
use cynative.Aws.Refined.{permits, IsReliable, IsSound, ask-refines, ask-IsSound}
use cynative.Aws.Gate.{authorize_action}
use cynative.Aws.Authorized.{IsPermitted, authorize_action-IsPermitted}
use cynative.Aws.Keys.{IsPinned}
use cynative.Aws.Resolved.{resolve_lem}

abbrev Entry : Type 0
Entry = Option (Str × Bool)

abbrev entry_holds : Entry → Str → Option Bool
entry_holds none k = none
entry_holds (some kb) k = if str_eq kb.0 k then some kb.1 else none

one-add-holds :
    (c : Entry) (k : Str) (b : Bool) (k' : Str) (v : Bool)
    → entry_holds (some (k, b)) k' ≡ some v
    → ((k' ≡ k) × (v ≡ b)) ⊎ (entry_holds c k' ≡ some v)
one-add-holds c k b k' v e = elim (Bool-cases (str_eq k k')) [
  | inl q ↦ inl (sym ((str_eq_iff k k').0 q), sym (cc (rw q at e)))
  | inr q ↦ cc (rw q at e)
]

abbrev one_entry : Cache Entry
one_entry = record {
  get = λ c k. (entry_holds c k, c);
  add = λ c k b. some (k, b);
  holds = entry_holds;
  get-holds = λ c k. refl;
  get-keeps = λ c k k'. refl;
  add-holds = one-add-holds;
}

abbrev only_reads : Str → Str
only_reads a = if str_eq a (codes "s3:GetObject") then decision_allowed else codes "implicitDeny"

-- the world counts the calls
abbrev reads_iam : Iam ℕ
reads_iam = record {
  simulate = λ w a. (ok (only_reads a ∷ []), suc w);
  decision = only_reads;
  decides = λ w a d ds e. cc e;
}

reads_iam-IsReliable : IsReliable one_entry reads_iam (codes "v1")
reads_iam-IsReliable w a = (only_reads a, [], refl)

abbrev questions : List (List Str)
questions =
    (codes "s3:GetObject" ∷ [])
    ∷ (codes "s3:PutObject" ∷ [])
    ∷ (codes "s3:GetObject" ∷ codes "s3:PutObject" ∷ [])
    ∷ []

answered :
    ask one_entry reads_iam (codes "v1") questions none 0 ≡ ok true ∷ ok false ∷ ok false ∷ []
unfolding ask str_eq
answered = refl

ask-refines_example :
    ask one_entry reads_iam (codes "v1") questions none 0
    ≡ map (λ q. ok (all (permits one_entry reads_iam (codes "v1")) q)) questions
ask-refines_example =
    ask-refines one_entry reads_iam (codes "v1") none 0 (λ k. refl) reads_iam-IsReliable questions

ask-IsSound_example :
    IsSound one_entry reads_iam
      (codes "v1")
      questions
      (ask one_entry reads_iam (codes "v1") questions none 0)
ask-IsSound_example = ask-IsSound one_entry reads_iam (codes "v1") none 0 (λ k. refl) questions

abbrev s3_model : ServiceModel
s3_model = record {
  dir = codes "s3";
  sdk_id = codes "S3";
  arn_namespace = codes "s3";
  endpoint_prefix = codes "s3";
  signing_name = codes "s3";
  namespace_shadowed = false;
  protocol = protocol_aws_json10;
  operations =
      (
        codes "GetObject",
        record {
          http_method = codes "GET";
          uri_template = codes "/";
          required_query = [];
          required_header = [];
        },
      )
      ∷ [];
}

abbrev no_registries : Registries
no_registries = record {
  service_ref = λ k. none;
  lookup = λ k names op. [];
  lookup_sdk_id = λ id op. [];
}

abbrev get_object : Request
get_object = record {
  view = record {
    method = codes "POST";
    hostname = codes "s3.amazonaws.com";
    port = [];
    path = codes "/";
    escaped_path = codes "/";
    raw_query = [];
    body = [];
  };
  header_get = λ h. codes "S3.GetObject";
  parse_query = λ q. ([], false);
}

abbrev s3_host : ParsedHost
s3_host = record { service = codes "s3"; region = []; bucket_in_host = false }

get_object-ok :
    (authorize_action one_entry reads_iam
      (codes "v1")
      no_registries
      get_object
      s3_host
      (s3_model ∷ [])
      none
      0).0
    ≡ ok tt
unfolding authorize_action
get_object-ok = refl

authorize_action-IsPermitted_example :
    IsPermitted one_entry reads_iam (codes "v1") no_registries get_object s3_host (s3_model ∷ [])
authorize_action-IsPermitted_example =
    authorize_action-IsPermitted one_entry reads_iam (codes "v1") no_registries get_object s3_host
      (s3_model ∷ []) none 0 (λ a b e. cc e) get_object-ok

resolve_lem_example :
    (((resolve no_registries s3_model (codes "GetObject")).1 ≡ source_permissionless)
      ↔ IsPinned s3_model (codes "GetObject"))
    × ((resolve no_registries s3_model (codes "GetObject")).1 ≡ source_derived
        → ((false ≡ false) × (codes "s3" ≢ []))
          × ((resolve no_registries s3_model (codes "GetObject")).0 ≡ codes "s3:GetObject" ∷ []))
    × (((resolve no_registries s3_model (codes "GetObject")).0 ≡ []) ↔ (
        ((resolve no_registries s3_model (codes "GetObject")).1 ≡ source_none)
        ⊎ ((resolve no_registries s3_model (codes "GetObject")).1 ≡ source_permissionless)))
resolve_lem_example = resolve_lem no_registries s3_model (codes "GetObject")
