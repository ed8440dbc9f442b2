-- ===== src/Auth/Admins.antt =====
-- Who reaches the routes of admins (`requireAdmin` behind `Middleware` of internal/http/auth.go).
use touchgrass.Auth.{
  Identity, admin, Authenticator, authenticate, is_public, middleware, serve, require_admin,
}
use touchgrass.Auth.Sessions.{IsGood, authenticate_iff}
use touchgrass.Base.{◌≡◌, ◌↔◌, true, false, Text, bytes, is_empty, has_prefix, some, arith}
use touchgrass.Users.Store.{Db, Env, select_by_username}
use touchgrass.Users.Service.{Bcrypt}

require_admin-middleware :
    (b : Bcrypt) (env : Env) (path token : Text) (db : Db) (a : Authenticator) (i : Identity)
    → is_public path ≡ false
    → has_prefix path (bytes "/api/") ≡ true
    → (require_admin (middleware b env path (some token) db a).0 ≡ serve i)
      ↔ (((authenticate b env (some token) db a).0 ≡ some i) × (admin i ≡ true))
unfolding middleware require_admin
require_admin-middleware b env path token db a i private api =
    (λ h. ground arith, λ h. ground arith)

-- A request for a route of admins under /api/ that is not public is served for an identity exactly
-- when its token is good for that identity and its role is admin. (The token is not empty, and the
-- lookup's statement must not fail.)
require_admin_iff :
    (b : Bcrypt) (env : Env) (path token : Text) (db : Db) (a : Authenticator) (i : Identity)
    → is_public path ≡ false
    → has_prefix path (bytes "/api/") ≡ true
    → env.fails select_by_username ≡ false
    → is_empty token ≡ false
    → (require_admin (middleware b env path (some token) db a).0 ≡ serve i)
      ↔ (IsGood b env token db a i × (admin i ≡ true))
require_admin_iff b env path token db a i private api live given =
    let (open_door, shut_door) = require_admin-middleware b env path token db a i private api in
    let (good, let_in) = authenticate_iff b env token db a i live given in
    (λ h. let (known, rank) = open_door h in (good known, rank), λ h. shut_door (let_in h.0, h.1))
