-- ===== src/Gcp/Roles.antt =====
-- internal/auth/gcp/roleeval.go: the permissions that a role grants.
use cynative.Base.{Str, Bool, List, all, contains}

-- `AllowedAll`, over the granted permissions as a list
unfoldable pub allowed_all : List Str → List Str → Bool
unfolding all contains
allowed_all granted perms = all (contains granted) perms
