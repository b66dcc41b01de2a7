-- ===== src/Authreq/View.antt =====
-- internal/auth/authreq/authreq.go: `View`. The header is not read by the gates that are modelled.
use cynative.Base.{Str}

-- `View`
pub record View : Type 0 where
  pub method : Str
  pub hostname : Str
  pub port : Str
  pub path : Str
  pub escaped_path : Str
  pub raw_query : Str
  pub body : Str
