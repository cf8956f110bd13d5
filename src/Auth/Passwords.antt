-- ===== src/Auth/Passwords.antt =====
-- Forgotten and changed passwords: `ForgotPassword`, `ResetPassword` and `ChangePassword` of
-- auth-service/internal/service/auth_service.go.
use entra_api.Base.{ℕ, ◌+◌, String, not, ltb}
use entra_api.Base.Go.{
  Go, Error, message, no_rows, unavailable, ok, err, pure, fail, gets, attempt, ignore, or_none,
  or_fail, fail_if, ◌>>=◌, ◌>>◌,
}
use entra_api.Base.External.{Uuids}
use entra_api.Accounts.{
  User, PasswordResetToken, Accounts, get_user_by_id, get_user_row_by_email, update_user_password,
}
use entra_api.Accounts.Crypto.{Crypto}
use entra_api.Accounts.Tokens.{
  create_password_reset_token, get_password_reset_token, delete_password_reset_token,
}
use entra_api.Auth.{
  err_user_not_found, err_reset_token, err_old_password, found_or, draw, reset_lifetime,
  hash_password,
}
use entra_api.Auth.Profile.{err_get_user}

abbrev pub err_update_password : Error
err_update_password = message "failed to update password"

module _ (crypto : Crypto) where
  -- `HashToken`
  abbrev pub hash_token : String → String
  hash_token token = crypto.sha256_hex token

  abbrev pub reset_row : User → ℕ → String → PasswordResetToken
  reset_row u now token = record {
    user_id = u.id;
    token = hash_token token;
    expires_at = now + reset_lifetime;
  }

  unfoldable pub issue_reset_token : User → Go Accounts String
  issue_reset_token u = do
    n ← draw
    now ← gets (λ s. s.env.now)
    or_fail (create_password_reset_token (reset_row u now (crypto.new_uuid n)))
        (message "failed to create reset token")
    pure (crypto.new_uuid n)

  -- `ForgotPassword`: an unknown address gets an empty token and no error.
  unfoldable pub forgot_password : String → Go Accounts String
  forgot_password email = do
    r ← attempt (get_user_row_by_email email)
    elim r [
      | ok u ↦ issue_reset_token u
      | err e ↦ elim e [
        | no_rows ↦ pure ""
        | unavailable ↦ fail err_get_user
        | message _ ↦ fail err_get_user
      ]
    ]

module _ (uuids : Uuids) (crypto : Crypto) where
  -- `ResetPassword`
  unfoldable pub reset_password : String → String → Go Accounts (Unit {0})
  reset_password token new_password = do
    row ←
        found_or (get_password_reset_token (hash_token crypto token)) err_reset_token
          (message "failed to get reset token")
    now ← gets (λ s. s.env.now)
    fail_if (ltb row.expires_at now) err_reset_token
    hash ← hash_password crypto new_password
    or_fail (update_user_password row.user_id hash) err_update_password
    ignore (delete_password_reset_token (hash_token crypto token))

  -- `ChangePassword`
  unfoldable pub change_password : String → String → String → Go Accounts (Unit {0})
  change_password user_id old_password new_password = do
    id ← or_none (uuids.parse user_id) err_user_not_found
    u ← found_or (get_user_by_id id) err_user_not_found err_get_user
    fail_if (not (crypto.compare_hash_and_password u.password_hash old_password)) err_old_password
    hash ← hash_password crypto new_password
    or_fail (update_user_password u.id hash) err_update_password
