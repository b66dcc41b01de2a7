-- ===== src/Aws/Protocols.antt =====
-- internal/auth/aws/classifier_proto.go: the operations that a request names, by the protocol of the
-- service. `unknown_op` is `ErrClassifierUnknownOp` with any text.
use cynative.Base.{
  Bool, true, false, not, ◌&&◌, ◌||◌, if◌then◌else◌, ltb, ◌==◌, Str, codes, List, [], ◌∷◌, ◌++◌,
  Option, none, some, str_eq, to_upper, any, Result, ok, err, ◌>>=◌,
}
use cynative.Authreq.Path.{path_readings}
use cynative.Aws.Model.{
  Protocol, protocol_unknown, protocol_rest_xml, protocol_rest_json1, protocol_aws_json10,
  protocol_aws_json11, protocol_aws_query, protocol_ec2_query, ServiceModel, ParsedHost, find,
  has_key,
}
use cynative.Aws.Rest.{Request, classification_segments, classify_rest}

pub data ClassifyError : Type 0 where
  unknown_op unsupported_protocol : ClassifyError

-- `knownOp`
unfoldable pub known_op : ServiceModel → Str → Result ClassifyError Str
unfolding find
known_op model op = if has_key model.operations op then ok op else err unknown_op

-- what follows the last dot, or none where there is no dot or nothing follows
unfoldable pub target_op : Str → Option Str
target_op [] = none
target_op (c ∷ s) = elim (target_op s) [
  | some op ↦ some op
  | none ↦ if c == b'.' && not (str_eq s []) && not (any (λ d. d == b'.') s) then some s else none
]

unfoldable pub or_unknown {ℓ} : {A : Type ℓ} → Option A → Result ClassifyError A
or_unknown none = err unknown_op
or_unknown (some a) = ok a

-- `classifyJSONRPC`; an absent header gives the empty text, which has no dot
unfoldable pub classify_json_rpc : ServiceModel → Request → Result ClassifyError Str
unfolding target_op or_unknown known_op
classify_json_rpc model r =
    or_unknown (target_op (r.header_get (codes "X-Amz-Target"))) >>= λ op. known_op model op

-- the values of a key
abbrev values_of : List (Str × List Str) → Str → List Str
values_of vals k = elim (find vals k) [ none ↦ [] | some vs ↦ vs ]

-- `singleAction`
abbrev sole_value : List Str → Result ClassifyError Str
sole_value [] = err unknown_op
sole_value ([] ∷ []) = err unknown_op
sole_value ((c ∷ s) ∷ []) = ok (c ∷ s)
sole_value (_ ∷ _ ∷ _) = err unknown_op

unfoldable pub single_action : List (Str × List Str) → Result ClassifyError Str
unfolding find
single_action vals = sole_value (values_of vals (codes "Action"))

-- `classifyQueryURL`
unfoldable pub classify_query_url : ServiceModel → Request → Result ClassifyError Str
unfolding single_action known_op
classify_query_url model r =
    single_action (r.parse_query r.view.raw_query).0 >>= λ op. known_op model op

-- `classifyQueryBody`
unfoldable pub classify_query_body : ServiceModel → Request → Result ClassifyError Str
unfolding single_action known_op find str_eq
classify_query_body model r =
    if has_key (r.parse_query r.view.raw_query).0 (codes "Action")
      || str_eq r.view.body []
      || (r.parse_query r.view.body).1
    then err unknown_op
    else single_action (r.parse_query r.view.body).0 >>= λ op. known_op model op

-- `classifyQuery`
unfoldable pub classify_query : ServiceModel → Request → Result ClassifyError Str
unfolding classify_query_body classify_query_url to_upper str_eq
classify_query model r =
    if str_eq (to_upper r.view.method) (codes "POST")
    then classify_query_body model r
    else (if str_eq (to_upper r.view.method) (codes "GET")
        then classify_query_url model r
        else err unknown_op)

-- `a < b` on strings
unfoldable pub str_lt : Str → Str → Bool
str_lt [] [] = false
str_lt [] (b ∷ t) = true
str_lt (a ∷ s) [] = false
str_lt (a ∷ s) (b ∷ t) = ltb a b || (a == b && str_lt s t)

-- `slices.Sort`
unfoldable pub insert_name : Str → List Str → List Str
unfolding str_lt
insert_name s [] = s ∷ []
insert_name s (t ∷ ts) = let rest = insert_name s ts in if str_lt t s then t ∷ rest else s ∷ t ∷ ts

unfoldable pub sort : List Str → List Str
unfolding insert_name
sort [] = []
sort (s ∷ ss) = insert_name s (sort ss)

-- `slices.Compact`
unfoldable pub compact : List Str → List Str
unfolding str_eq
compact [] = []
compact (s ∷ []) = s ∷ []
compact (s ∷ t ∷ ss) = let rest = compact (t ∷ ss) in if str_eq s t then rest else s ∷ rest

-- the loop of `classifyRESTReadings`
unfoldable pub union_of : ServiceModel → Request → ParsedHost → List (List Str) → List Str
unfolding classify_rest classification_segments
union_of model r parsed [] = []
union_of model r parsed (segs ∷ readings) =
    elim (classify_rest model r (classification_segments parsed segs)) [
      | none ↦ union_of model r parsed readings
      | some ops ↦ ops ++ union_of model r parsed readings
    ]

abbrev pub or_none : List Str → Result ClassifyError (List Str)
or_none [] = err unknown_op
or_none (op ∷ ops) = ok (compact (sort (op ∷ ops)))

-- `classifyRESTReadings`; one match at least makes the union non-nil, for a match has a name
unfoldable pub classify_rest_readings :
    ServiceModel → Request → ParsedHost → Result ClassifyError (List Str)
unfolding union_of sort compact path_readings
classify_rest_readings model r parsed = or_none (union_of model r parsed (path_readings r.view))

abbrev single : Result ClassifyError Str → Result ClassifyError (List Str)
single (ok op) = ok (op ∷ [])
single (err e) = err e

-- `ClassifyOperation`
abbrev by_protocol :
    Protocol → ServiceModel → Request → ParsedHost → Result ClassifyError (List Str)
by_protocol protocol_rest_xml model r parsed = classify_rest_readings model r parsed
by_protocol protocol_rest_json1 model r parsed = classify_rest_readings model r parsed
by_protocol protocol_aws_json10 model r parsed = single (classify_json_rpc model r)
by_protocol protocol_aws_json11 model r parsed = single (classify_json_rpc model r)
by_protocol protocol_aws_query model r parsed = single (classify_query model r)
by_protocol protocol_ec2_query model r parsed = single (classify_query model r)
by_protocol protocol_unknown model r parsed = err unsupported_protocol

unfoldable pub classify_operation :
    ServiceModel → Request → ParsedHost → Result ClassifyError (List Str)
unfolding classify_rest_readings classify_json_rpc classify_query
classify_operation model r parsed = by_protocol model.protocol model r parsed
