-- ===== src/Transport/Message.antt =====
-- The requests that net/http builds, and what the transport asks of packages outside the repository.
use cynative.Base.{ℕ, Bool, Str, List, Option, to_lower}
use cynative.Authreq.View.{View}

-- `url.URL`: the parts that are read
pub record Url : Type 0 where
  pub scheme : Str
  pub hostname : Str
  pub port : Str
  pub path : Str
  pub escaped_path : Str
  pub raw_query : Str
  pub has_user : Bool

-- `http.Request`; a header is the list of its lines, under canonical keys
pub record HttpRequest : Type 0 where
  pub method : Str
  pub url : Url
  pub header : List (Str × Str)
  pub body : Str

-- Go's int. Its tests here need no bound.
pub data ℤ : Type 0 where
  pos negsuc : ℕ → ℤ

-- `KeyValue`
pub record KeyValue : Type 0 where
  pub key : Str
  pub value : Str

-- `RequestArgs`, less the blocks of the providers, which read them from the raw arguments
pub record RequestArgs : Type 0 where
  pub method : Str
  pub url : Str
  pub headers : List KeyValue
  pub body : Str
  pub timeout_seconds : ℤ
  pub max_response_body_size : ℤ
  pub auth_provider : Str

-- `json.Unmarshal` of the arguments; `http.NewRequestWithContext`, none for its error;
-- `textproto.CanonicalMIMEHeaderKey`; `url.ParseQuery`, the keys and none for its error; and whether
-- `netip.ParseAddr` finds a zone.
pub record World : Type 0 where
  pub parse_args : Str → Option RequestArgs
  pub parse_url : Str → Str → Option Url
  pub canonical_key : Str → Str
  pub query_keys : Str → Option (List Str)
  pub has_zone : Str → Bool

-- `NewView`
unfoldable pub new_view : HttpRequest → Str → View
unfolding to_lower
new_view req body = record {
  method = req.method;
  hostname = to_lower req.url.hostname;
  port = req.url.port;
  path = req.url.path;
  escaped_path = req.url.escaped_path;
  raw_query = req.url.raw_query;
  body = body;
}
