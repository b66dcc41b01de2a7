-- ===== src/Aws/Model.antt =====
-- internal/auth/aws/smithy.go and network.go: the model of a service, as the archive delivers it, and
-- the parsed host.
use cynative.Base.{Bool, true, false, Str, List, [], ◌∷◌, Option, none, some, str_eq, if◌then◌else◌}

-- `Protocol`
pub data Protocol : Type 0 where
  protocol_unknown protocol_rest_xml protocol_rest_json1 protocol_aws_json10 protocol_aws_json11
        protocol_aws_query protocol_ec2_query :
      Protocol

-- `Operation`
pub record Operation : Type 0 where
  pub http_method : Str
  pub uri_template : Str
  pub required_query : List Str
  pub required_header : List Str

-- `ServiceModel`; the operations in the order of their names
pub record ServiceModel : Type 0 where
  pub dir : Str
  pub sdk_id : Str
  pub arn_namespace : Str
  pub endpoint_prefix : Str
  pub signing_name : Str
  pub namespace_shadowed : Bool
  pub protocol : Protocol
  pub operations : List (Str × Operation)

-- `ParsedHost`, less the partition, which the gate does not read
pub record ParsedHost : Type 0 where
  pub service : Str
  pub region : Str
  pub bucket_in_host : Bool

-- `m[key]` on a map by association list
unfoldable pub find {ℓ} : {A : Type ℓ} → List (Str × A) → Str → Option A
unfolding str_eq
find [] k = none
find (kv ∷ m) k = if str_eq kv.0 k then some kv.1 else find m k

abbrev pub has_key {ℓ} : {A : Type ℓ} → List (Str × A) → Str → Bool
has_key m k = elim (find m k) [ none ↦ false | some _ ↦ true ]
