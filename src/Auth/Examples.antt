-- ===== src/Auth/Examples.antt =====
-- The theorems of authentication at concrete sessions.
use touchgrass.Base.{
  ◌≡◌, ◌↔◌, refl, true, false, Text, bytes, is_empty, text_eq, some, List, [], ◌∷◌, count, find,
  leb, arith,
}
use touchgrass.Base.Maps.{text_key, insert, empty}
use touchgrass.Base.Results.{ok}
use touchgrass.Audit.{record_audit}
use touchgrass.Users.Store.{User, is_disabled, by_id, update, delete, has_id, viewer}
use touchgrass.Users.Service.{verify, set_disabled, delete_user, require_another_admin}
use touchgrass.Users.Examples.{plain, calm, bob, two}
use touchgrass.Auth.{
  max_failures, Identity, Session, Authenticator, new_authenticator, hex_encode, authenticate,
  is_recent, attempts_exceeded, handle_login, granted, LoginRequest, login_name,
}
use touchgrass.Auth.Sessions.{IsGood, authenticate_iff}
use touchgrass.Auth.RateLimit.{
  Attempt, fails, checks, attempts, failure_times, attempts_exceeded_iff,
}
use touchgrass.Auth.Login.{handle_login_iff}
use touchgrass.Base.{has_prefix}
use touchgrass.Users.Store.{Role}
use touchgrass.Auth.{is_public}

abbrev bobs : Session
bobs = record { username = bytes "bob"; expires = 100 }

abbrev token : Text
token = bytes "t0"

abbrev logged_in : Authenticator
logged_in = record { sessions = insert empty token bobs; failures = empty }

abbrev as_bob : Identity
as_bob = record { username = bytes "bob"; role = viewer }

authenticate_iff_example :
    ((authenticate plain calm (some token) two logged_in).0 ≡ some as_bob)
    ↔ IsGood plain calm token two logged_in as_bob
unfolding is_empty
authenticate_iff_example = authenticate_iff plain calm token two logged_in as_bob refl refl

bobs_session : logged_in.sessions token ≡ some bobs
unfolding text_eq
bobs_session = refl

abbrev disabled_bob : User
disabled_bob = record bob { disabled_at = some 10 }

bob_disabled : (set_disabled plain calm 2 true (bytes "ann") two).0 ≡ ok disabled_bob
unfolding set_disabled is_empty by_id is_disabled require_another_admin update record_audit
bob_disabled = refl

bob_deleted : (delete_user plain calm 2 (bytes "ann") two).0 ≡ ok tt
unfolding delete_user is_empty by_id require_another_admin delete record_audit
bob_deleted = refl

bob_found : find (has_id 2) two.users ≡ some bob
unfolding find
bob_found = refl

abbrev bobs_login : LoginRequest
bobs_login = record { username = bytes "bob"; password = bytes "some other words" }

handle_login_iff_example :
    ((handle_login plain calm
        (some (bytes "!"))
        (bytes "10.0.0.1")
        (some bobs_login)
        two
        logged_in).0
      ≡ granted (bytes "21"))
    ↔ (((attempts_exceeded calm.now (bytes "10.0.0.1") logged_in).0 ≡ false)
        × ((u : User) × (verify plain calm (login_name bobs_login) bobs_login.password two ≡ ok u))
        × ((raw : Text) × (some (bytes "!") ≡ some raw) × (bytes "21" ≡ hex_encode raw)))
handle_login_iff_example =
    handle_login_iff plain calm (some (bytes "!")) (bytes "10.0.0.1") bobs_login two logged_in
      (bytes "21")

abbrev tries : List Attempt
tries = fails 1 ∷ checks 2 ∷ fails 3 ∷ fails 4 ∷ checks 4 ∷ fails 5 ∷ fails 6 ∷ []

attempts_exceeded_iff_example :
    (attempts_exceeded 10 (bytes "peer") (attempts (bytes "peer") tries new_authenticator)).0
    ≡ leb max_failures (count (is_recent 10) (failure_times tries))
attempts_exceeded_iff_example = attempts_exceeded_iff (bytes "peer") 10 tries (
  omega arith,
  (
    omega arith,
    (omega arith, (omega arith, (omega arith, (omega arith, (omega arith, omega arith))))),
  ),
)

abbrev anns : Session
anns = record { username = bytes "ann"; expires = 100 }

abbrev ann_logged_in : Authenticator
ann_logged_in = record { sessions = insert empty token anns; failures = empty }

abbrev as_ann : Identity
as_ann = record { username = bytes "ann"; role = Role.admin }

abbrev users_path : Text
users_path = bytes "/api/users"

users_path_private : is_public users_path ≡ false
unfolding is_public
users_path_private = refl

users_path_api : has_prefix users_path (bytes "/api/") ≡ true
unfolding has_prefix
users_path_api = refl

token_given : is_empty token ≡ false
unfolding is_empty
token_given = refl
