-- ===== src/Auth.antt =====
-- Sessions, login rate limiting and the middleware's decisions (internal/http/auth.go).
-- The maps are functions; times are nanoseconds; random bytes are an argument.
pub mod Sessions
pub mod RateLimit
pub mod Login
pub mod Admins
pub mod Examples
use touchgrass.Audit.{login, success, failure, Outcome, record_audit}
use touchgrass.Base.{
  ℕ, ◌+◌, ◌-◌, ◌/◌, ◌%◌, Bool, true, false, not, ◌&&◌, ◌||◌, ltb, leb, if◌then◌else◌, Text, bytes,
  is_empty, text_eq, has_prefix, Option, none, some, List, [], ◌∷◌, ◌++◌, length, select,
}
use touchgrass.Base.Maps
use touchgrass.Base.Maps.{Map, text_key}
use touchgrass.Base.Results.{Error, unauthorized, Result, ok, err}
use touchgrass.Users.Store.{Role, is_admin, User, Db, Env, insert_audit}
use touchgrass.Users.Service.{Bcrypt, verify, lookup}

abbrev pub max_failures : ℕ
max_failures = 5

-- time.Minute
abbrev pub failure_window : ℕ
failure_window = 60000000000

-- 24 * time.Hour
abbrev pub session_expiry : ℕ
session_expiry = 86400000000000

abbrev pub default_login_username : Text
default_login_username = bytes "admin"

pub record Identity : Type 0 where
  pub username : Text
  pub role : Role

-- `Identity.Admin`
unfoldable pub admin : Identity → Bool
unfolding is_admin
admin i = is_admin i.role

pub record Session : Type 0 where
  pub username : Text
  pub expires : ℕ

pub record Authenticator : Type 0 where
  pub sessions : Map Text Session
  pub failures : Map Text (List ℕ)

-- `NewAuthenticator`
unfoldable pub new_authenticator : Authenticator
new_authenticator = record { sessions = Maps.empty; failures = Maps.empty }

abbrev hex_digit : ℕ → ℕ
hex_digit n = if ltb n 10 then b'0' + n else b'a' + (n - 10)

-- `hex.EncodeToString`
unfoldable pub hex_encode : Text → Text
hex_encode [] = []
hex_encode (c ∷ s) = hex_digit (c / 16 % 16) ∷ hex_digit (c % 16) ∷ hex_encode s

-- `Authenticator.Logout`
unfoldable pub logout : Text → Authenticator → Authenticator
logout token a = record a { sessions = Maps.erase a.sessions token }

-- `Authenticator.Login`, given what `rand.Read` yields.
unfoldable pub log_in :
    Bcrypt → Env → Option Text → Text → Text → Db → Authenticator → Option Text × Authenticator
log_in b env random username password db a = elim (verify b env username password db) [
  | err e ↦ (none, a)
  | ok user ↦ elim random [
    | none ↦ (none, a)
    | some token ↦ (
      some (hex_encode token),
      record a {
        sessions =
            Maps.insert a.sessions (hex_encode token)
              (record { username = user.username; expires = env.now + session_expiry });
      },
    )
  ]
]

-- What the answer of `Lookup` makes of a session that has not expired.
abbrev pub answer : Result User → Text → Authenticator → Option Identity × Authenticator
answer (ok user) token a = (some (record { username = user.username; role = user.role }), a)
answer (err unauthorized) token a = (none, logout token a)
answer (err e) token a = (none, a)

-- A session that was found: it has expired, or its account decides.
abbrev pub check_session :
    Bcrypt → Env → Text → Option Session → Db → Authenticator → Option Identity × Authenticator
check_session b env token none db a = (none, logout token a)
check_session b env token (some s) db a =
    if ltb s.expires env.now
    then (none, logout token a)
    else answer (lookup b env s.username db) token a

-- `Authenticator.Authenticate`; `none` is a request without the cookie.
unfoldable pub authenticate :
    Bcrypt → Env → Option Text → Db → Authenticator → Option Identity × Authenticator
unfolding is_empty
authenticate b env none db a = (none, a)
authenticate b env (some token) db a =
    if is_empty token then (none, a) else check_session b env token (a.sessions token) db a

-- A failure that is younger than the window.
abbrev pub is_recent : ℕ → ℕ → Bool
is_recent now t = ltb now (t + failure_window)

-- `Authenticator.AttemptsExceeded`
unfoldable pub attempts_exceeded : ℕ → Text → Authenticator → Bool × Authenticator
unfolding select
attempts_exceeded now ip a =
    let recent = select (is_recent now) (Maps.get_or a.failures ip []) in
    (leb max_failures (length recent), record a { failures = Maps.insert a.failures ip recent })

-- `Authenticator.RegisterFailure`
unfoldable pub register_failure : ℕ → Text → Bool → Authenticator → Authenticator
register_failure now ip failed a =
    if failed
    then record a {
      failures = Maps.insert a.failures ip (Maps.get_or a.failures ip [] ++ now ∷ []);
    }
    else record a { failures = Maps.erase a.failures ip }

-- `isPublic`
unfoldable pub is_public : Text → Bool
unfolding text_eq
is_public path =
    text_eq path (bytes "/api/health")
    || (text_eq path (bytes "/api/auth/login")
        || (text_eq path (bytes "/api/ingest") || text_eq path (bytes "/api/ingest/logs")))

pub data Verdict : Type 0 where
  pass : Verdict
  pass_as : Identity → Verdict
  reject : Verdict

-- `Authenticator.Middleware`: what becomes of a request for a path.
unfoldable pub middleware :
    Bcrypt → Env → Text → Option Text → Db → Authenticator → Verdict × Authenticator
unfolding has_prefix
middleware b env path cookie db a =
    if is_public path || not (has_prefix path (bytes "/api/"))
    then (pass, a)
    else (let (who, a') = authenticate b env cookie db a in
        elim who [ none ↦ (reject, a') | some i ↦ (pass_as i, a') ])

pub data AdminVerdict : Type 0 where
  serve : Identity → AdminVerdict
  forbidden turned_away : AdminVerdict

-- `Server.requireAdmin`, behind the middleware. A request that the middleware passes without an
-- identity has Go's zero identity, which is no admin.
unfoldable pub require_admin : Verdict → AdminVerdict
unfolding admin
require_admin pass = forbidden
require_admin (pass_as i) = if admin i then serve i else forbidden
require_admin reject = turned_away

pub data LoginReply : Type 0 where
  invalid_request rate_limited refused : LoginReply
  granted : Text → LoginReply

-- `auditLogin`: an audit that fails is only logged.
abbrev pub audit_login : Env → Text → Outcome → Text → Db → Db
audit_login env username outcome detail db = record db {
  trail =
      (record_audit (λ id. ok tt) (env.fails insert_audit) env.now
        (record {
          service_id = [];
          actor = username;
          action = login;
          outcome = outcome;
          detail = detail;
        })
        db.trail).1;
}

-- A decoded login body.
pub record LoginRequest : Type 0 where
  pub username : Text
  pub password : Text

abbrev pub login_name : LoginRequest → Text
login_name r = if is_empty r.username then default_login_username else r.username

-- The end of `handleLogin`, with the answer of `Login`.
abbrev pub finish_login :
    Env → Text → Text → Option Text × Authenticator → Db → LoginReply × Authenticator × Db
finish_login env ip username (none, a) db = (
  refused,
  register_failure env.now ip true a,
  audit_login env username failure (bytes "failed login from " ++ ip) db,
)
finish_login env ip username (some token, a) db = (
  granted token,
  register_failure env.now ip false a,
  audit_login env username success (bytes "login from " ++ ip) db,
)

-- `handleLogin`, for a body that decodes or does not, from the peer `ip`.
unfoldable pub handle_login :
    Bcrypt
    → Env
    → Option Text
    → Text
    → Option LoginRequest
    → Db
    → Authenticator
    → LoginReply × Authenticator × Db
handle_login b env random ip none db a = (invalid_request, a, db)
handle_login b env random ip (some r) db a =
    let (exceeded, a') = attempts_exceeded env.now ip a in
    if exceeded
    then (
      rate_limited,
      a',
      audit_login env (login_name r) failure (bytes "rate-limited login from " ++ ip) db,
    )
    else finish_login env ip (login_name r) (log_in b env random (login_name r) r.password db a') db
