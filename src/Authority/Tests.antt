-- ===== src/Authority/Tests.antt =====
-- Requests to the pinned port and past it.
use cynative.Base.{codes, String, ◌≡◌, refl, [], ok, err}
use cynative.Authreq.View.{View}
use cynative.Authority.{https_port, wrong_port, authorize_request_port}

abbrev on_port : String → View
on_port port = record {
  method = codes "GET";
  hostname = codes "api.github.com";
  port = codes port;
  path = [];
  escaped_path = [];
  raw_query = [];
  body = [];
}

ports :
    (authorize_request_port (on_port "") https_port ≡ ok tt)
    × (authorize_request_port (on_port "8443") https_port
        ≡ err (wrong_port https_port (codes "8443")))
unfolding authorize_request_port
ports = (refl, refl)
