-- ===== src/Auth/Login.antt =====
-- The login handler.
use touchgrass.Auth.{
  Authenticator, granted, LoginRequest, login_name, hex_encode, attempts_exceeded, log_in,
  handle_login,
}
use touchgrass.Base.{◌≡◌, ◌↔◌, inl, inr, false, Text, Option, some, arith, Option-cases}
use touchgrass.Base.Results.{ok, Result-cases}
use touchgrass.Users.Store.{User, Db, Env}
use touchgrass.Users.Service.{Bcrypt, verify}

-- A login is granted a token exactly when the peer is under the limit, the credentials are good
-- and the random bytes were there; the token is their hexadecimal form.
pub handle_login_iff :
    (b : Bcrypt) (env : Env) (random : Option Text) (ip : Text) (r : LoginRequest) (db : Db)
    (a : Authenticator) (token : Text)
    → ((handle_login b env random ip (some r) db a).0 ≡ granted token) ↔ (
        ((attempts_exceeded env.now ip a).0 ≡ false)
        × ((u : User) × (verify b env (login_name r) r.password db ≡ ok u))
        × ((raw : Text) × (random ≡ some raw) × (token ≡ hex_encode raw)))
unfolding handle_login log_in
handle_login_iff b env random ip r db a token = (forth, back)
  where
    forth :
        (handle_login b env random ip (some r) db a).0 ≡ granted token
        → ((attempts_exceeded env.now ip a).0 ≡ false)
          × ((u : User) × (verify b env (login_name r) r.password db ≡ ok u))
          × ((raw : Text) × (random ≡ some raw) × (token ≡ hex_encode raw))
    forth h = elim (Result-cases (verify b env (login_name r) r.password db)) [
      | inr (x, e) ↦ absurd (ground arith)
      | inl (u, e) ↦ elim (Option-cases random) [
        | inl f ↦ absurd (ground arith)
        | inr (raw, f) ↦ (ground arith, (u, e), (raw, f, ground arith))
      ]
    ]

    back :
        ((attempts_exceeded env.now ip a).0 ≡ false)
          × ((u : User) × (verify b env (login_name r) r.password db ≡ ok u))
          × ((raw : Text) × (random ≡ some raw) × (token ≡ hex_encode raw))
        → (handle_login b env random ip (some r) db a).0 ≡ granted token
    back (under, (u, e), (raw, f, g)) = ground arith
