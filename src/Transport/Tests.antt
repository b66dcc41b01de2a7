-- ===== src/Transport/Tests.antt =====
-- A GET on a connector that accepts it.
use cynative.Base.{◌≡◌, refl, true, false, codes, [], ◌∷◌, ◌++◌, Memᴰ, some, ok, err}
use cynative.Transport.Message.{Url, HttpRequest, pos, RequestArgs, World}
use cynative.Transport.Providers.{Provider, non_ascii_host}
use cynative.Transport.Request.{injects, Wire, do_request, request_of, refused}
use cynative.Transport.Vetted.{IsVettedUse, do_request-IsVetted}

abbrev get_user : RequestArgs
get_user = record {
  method = codes "GET";
  url = codes "https://api.github.com/user";
  headers = [];
  body = [];
  timeout_seconds = pos 0;
  max_response_body_size = pos 0;
  auth_provider = codes "GitHub";
}

abbrev user_url : Url
user_url = record {
  scheme = codes "https";
  hostname = codes "api.github.com";
  port = [];
  path = codes "/user";
  escaped_path = codes "/user";
  raw_query = [];
  has_user = false;
}

abbrev plain_world : World
plain_world = record {
  parse_args = λ s. some get_user;
  parse_url = λ m u. some user_url;
  canonical_key = λ k. k;
  query_keys = λ q. some [];
  has_zone = λ h. false;
}

abbrev github : Provider
github = record {
  name = codes "github";
  authorizes_host = λ h raw. ok true;
  authorize_action = some (λ v h raw. ok tt);
  inject_auth = λ req raw.
      ok (record req { header = req.header ++ (codes "Authorization", codes "token") ∷ [] });
}

abbrev open_wire : Wire
open_wire = record { configure = λ req raw. ok tt; send = λ req. ok (codes "200") }

abbrev user_request : HttpRequest
user_request =
    request_of plain_world get_user user_url
      ((codes "User-Agent", codes "Cynative-Research/1.0") ∷ [])

user_injected : Memᴰ (injects user_request) (do_request plain_world open_wire (github ∷ []) []).0
unfolding do_request
user_injected = Memᴰ.head refl

do_request-IsVetted_example : IsVettedUse plain_world (github ∷ []) [] (injects user_request)
do_request-IsVetted_example =
    do_request-IsVetted plain_world open_wire (github ∷ []) [] (injects user_request) user_injected

-- a host with a byte outside ASCII uses no credential
abbrev accented_world : World
accented_world = record plain_world {
  parse_url = λ m u. some (record user_url { hostname = 195 ∷ 169 ∷ [] });
}

accented : do_request accented_world open_wire (github ∷ []) [] ≡ ([], err (refused non_ascii_host))
unfolding do_request
accented = refl
