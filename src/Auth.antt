-- ===== src/Auth.antt =====
-- The auth service: auth-service/internal/service/auth_service.go.
pub mod Profile
pub mod Passwords
pub mod Rules
pub mod Users
pub mod Requests
pub mod Sessions
pub mod Rotation
pub mod Spent
pub mod Recovery
pub mod Regained
pub mod Roles
pub mod Distinct
use entra_api.Base.{
  ℕ, suc, ◌+◌, ◌*◌, ◌/◌, String, Bool, not, Option, none, some, ltb, str_eq, if◌then◌else◌,
}
use entra_api.Base.Go.{
  Go, Error, message, no_rows, unavailable, Result, ok, err, pure, fail, gets, attempt, ignore,
  or_none, or_fail, fail_if, modify, ◌>>=◌, ◌>>◌,
}
use entra_api.Base.External.{Uuids}
use entra_api.Platform.{put, second}
use entra_api.Accounts.{
  User, RefreshToken, TokenPair, RotatedTokenEntry, Accounts, get_user_by_id, get_user_row_by_email,
  create_user, update_user_password, update_user_role, update_user_profile,
}
use entra_api.Accounts.Crypto.{Claims, Crypto}
use entra_api.Accounts.Tokens.{
  create_refresh_token, get_refresh_token, delete_refresh_token, create_password_reset_token,
  get_password_reset_token, delete_password_reset_token,
}

pub record RegisterRequest : Type 0 where
  pub email : String
  pub password : String
  pub full_name : String
  pub phone : String
  pub role : String

pub record UpdateProfileRequest : Type 0 where
  pub full_name : String
  pub phone : String
  pub avatar_url : String

-- The JWT section of the configuration; the lifetimes are in nanoseconds.
pub record JwtConfig : Type 0 where
  pub secret : String
  pub access_expiry : ℕ
  pub refresh_expiry : ℕ

abbrev pub err_invalid_credentials : Error
err_invalid_credentials = message "invalid email or password"

abbrev pub err_email_exists : Error
err_email_exists = message "email already registered"

abbrev pub err_user_not_found : Error
err_user_not_found = message "user not found"

abbrev pub err_invalid_token : Error
err_invalid_token = message "invalid or expired token"

abbrev pub err_reset_token : Error
err_reset_token = message "invalid or expired reset token"

abbrev pub err_old_password : Error
err_old_password = message "kata sandi lama tidak cocok"

-- `pgTextFromString`
abbrev pub pg_text_from_string : String → Option String
pg_text_from_string s = if str_eq s "" then none else some s

-- An error of a query, where a missing row has a meaning of its own.
abbrev pub or_missing : {A : Type 0} → Result A → Error → Error → Go Accounts A
or_missing (ok a) missing failed = pure a
or_missing (err no_rows) missing failed = fail missing
or_missing (err unavailable) missing failed = fail failed
or_missing (err (message m)) missing failed = fail failed

-- `if errors.Is(err, pgx.ErrNoRows) { return missing }; return fmt.Errorf(failed, err)`
abbrev pub found_or : {A : Type 0} → Go Accounts A → Error → Error → Go Accounts A
found_or m missing failed = do r ← attempt m; or_missing r missing failed

-- The next draw from the random source.
unfoldable pub draw : Go Accounts ℕ
draw s = (ok s.drawn, record s { drawn = suc s.drawn })

-- Thirty seconds, and thirty minutes.
abbrev pub grace_window : ℕ
grace_window = 30 * second

abbrev pub reset_lifetime : ℕ
reset_lifetime = 1800 * second

-- The registration is refused unless there is no active account of the address.
abbrev pub email_free : Result User → Go Accounts (Unit {0})
email_free (ok _) = fail err_email_exists
email_free (err no_rows) = pure tt
email_free (err unavailable) = fail (message "failed to check email")
email_free (err (message m)) = fail (message "failed to check email")

-- An old token leads to the new pair for thirty seconds.
unfoldable pub remember_rotation : String → TokenPair → Go Accounts (Unit {0})
remember_rotation token tokens = do
  now ← gets (λ s. s.env.now)
  modify λ s. record s {
    recent_rotations =
        put token (some (record { tokens = tokens; expires_at = now + grace_window }))
          s.recent_rotations;
  }

unfoldable pub forget_rotation : String → Go Accounts (Unit {0})
forget_rotation token =
    modify λ s. record s { recent_rotations = put token none s.recent_rotations }

-- `Logout`
unfoldable pub logout : String → Go Accounts (Unit {0})
logout token = delete_refresh_token token

module _ (crypto : Crypto) where
  unfoldable pub hash_password : String → Go Accounts String
  hash_password p = do
    n ← draw
    or_none (crypto.generate_from_password p n) (message "failed to hash password")

module _ (uuids : Uuids) (crypto : Crypto) (cfg : JwtConfig) where
  abbrev pub claims_of : User → ℕ → Claims
  claims_of u now = record {
    user_id = uuids.to_string u.id;
    email = u.email;
    role = u.role;
    iat = now / second;
    exp = (now + cfg.access_expiry) / second;
  }

  abbrev pub refresh_row : User → ℕ → String → String → String → RefreshToken
  refresh_row u now token agent ip = record {
    user_id = u.id;
    token = token;
    user_agent = pg_text_from_string agent;
    ip_address = pg_text_from_string ip;
    expires_at = now + cfg.refresh_expiry;
  }

  abbrev pub pair_of : ℕ → String → String → TokenPair
  pair_of now access refresh = record {
    access_token = access;
    refresh_token = refresh;
    expires_at = (now + cfg.access_expiry) / second;
  }

  -- `generateTokenPair`
  unfoldable pub generate_token_pair : User → String → String → Go Accounts TokenPair
  generate_token_pair u agent ip = do
    now ← gets (λ s. s.env.now)
    access ←
        or_none (crypto.signed_string (claims_of u now) cfg.secret)
          (message "failed to sign access token")
    n ← draw
    refresh ← or_none (crypto.random_token n) (message "failed to generate refresh token")
    or_fail (create_refresh_token (refresh_row u now refresh agent ip))
        (message "failed to store refresh token")
    pure (pair_of now access refresh)

  -- `Register`: whatever role the request asks for, the account is a customer's.
  unfoldable pub register : RegisterRequest → Go Accounts (User × TokenPair)
  register req = do
    r ← attempt (get_user_row_by_email req.email)
    email_free r
    hash ← hash_password crypto req.password
    u ←
        or_fail
          (create_user req.email hash req.full_name (pg_text_from_string req.phone) "customer")
          (message "failed to create user")
    tokens ← generate_token_pair u "" ""
    pure (u, tokens)

  -- `Login`
  unfoldable pub login : String → String → String → String → Go Accounts (User × TokenPair)
  login email password agent ip = do
    u ←
        found_or (get_user_row_by_email email) err_invalid_credentials
          (message "failed to get user")
    fail_if (not (crypto.compare_hash_and_password u.password_hash password))
        err_invalid_credentials
    tokens ← generate_token_pair u agent ip
    pure (u, tokens)

  -- `RefreshToken` for a token that was not rotated just now.
  unfoldable pub rotate : String → String → String → Go Accounts TokenPair
  rotate token agent ip = do
    row ←
        found_or (get_refresh_token token) err_invalid_token (message "failed to get refresh token")
    ignore (delete_refresh_token token)
    u ← or_fail (get_user_by_id row.user_id) err_user_not_found
    tokens ← generate_token_pair u agent ip
    remember_rotation token tokens
    pure tokens

  -- `RefreshToken`
  unfoldable pub refresh_token : String → String → String → Go Accounts TokenPair
  refresh_token token agent ip = do
    entry ← gets (λ s. s.recent_rotations token)
    now ← gets (λ s. s.env.now)
    elim entry [
      | none ↦ rotate token agent ip
      | some e ↦
          if ltb now e.expires_at
          then pure e.tokens
          else forget_rotation token >> rotate token agent ip
    ]
