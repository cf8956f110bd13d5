-- ===== src/Accounts/Tokens.antt =====
-- The queries on `refresh_tokens` (auth-service/internal/repository/db/refresh_tokens.sql.go) and on
-- `password_reset_tokens` (password_resets.sql.go).
use entra_api.Base.{
  ℕ, String, Bool, false, ◌&&◌, ◌||◌, Option, none, some, List, [], ◌∷◌, ◌++◌, ltb, str_eq,
  if◌then◌else◌,
}
use entra_api.Base.Go.{Go, no_rows, gets, or_none, fail_if, modify, ◌>>=◌, ◌>>◌}
use entra_api.Accounts.{RefreshToken, PasswordResetToken, Accounts, query, err_duplicate}

unfoldable pub token_taken : String → List RefreshToken → Bool
token_taken token [] = false
token_taken token (t ∷ ts) = str_eq t.token token || token_taken token ts

-- `WHERE token = $1 AND expires_at > NOW()`
unfoldable pub find_refresh : ℕ → String → List RefreshToken → Option RefreshToken
find_refresh now token [] = none
find_refresh now token (t ∷ ts) =
    if str_eq t.token token && ltb now t.expires_at then some t else find_refresh now token ts

unfoldable pub drop_refresh : String → List RefreshToken → List RefreshToken
drop_refresh token [] = []
drop_refresh token (t ∷ ts) =
    if str_eq t.token token then drop_refresh token ts else t ∷ drop_refresh token ts

-- `CreateRefreshToken`
unfoldable pub create_refresh_token : RefreshToken → Go Accounts (Unit {0})
create_refresh_token t = do
  query
  ts ← gets (λ s. s.refresh_tokens)
  fail_if (token_taken t.token ts) err_duplicate
  modify λ s. record s { refresh_tokens = s.refresh_tokens ++ t ∷ [] }

-- `GetRefreshToken`
unfoldable pub get_refresh_token : String → Go Accounts RefreshToken
get_refresh_token token = do
  query
  found ← gets (λ s. find_refresh s.env.now token s.refresh_tokens)
  or_none found no_rows

-- `DeleteRefreshToken`
unfoldable pub delete_refresh_token : String → Go Accounts (Unit {0})
delete_refresh_token token = do
  query
  modify λ s. record s { refresh_tokens = drop_refresh token s.refresh_tokens }

unfoldable pub reset_taken : String → List PasswordResetToken → Bool
reset_taken token [] = false
reset_taken token (t ∷ ts) = str_eq t.token token || reset_taken token ts

unfoldable pub find_reset : String → List PasswordResetToken → Option PasswordResetToken
find_reset token [] = none
find_reset token (t ∷ ts) = if str_eq t.token token then some t else find_reset token ts

unfoldable pub drop_reset : String → List PasswordResetToken → List PasswordResetToken
drop_reset token [] = []
drop_reset token (t ∷ ts) =
    if str_eq t.token token then drop_reset token ts else t ∷ drop_reset token ts

-- `CreatePasswordResetToken`
unfoldable pub create_password_reset_token : PasswordResetToken → Go Accounts (Unit {0})
create_password_reset_token t = do
  query
  ts ← gets (λ s. s.reset_tokens)
  fail_if (reset_taken t.token ts) err_duplicate
  modify λ s. record s { reset_tokens = s.reset_tokens ++ t ∷ [] }

-- `GetPasswordResetToken`
unfoldable pub get_password_reset_token : String → Go Accounts PasswordResetToken
get_password_reset_token token = do
  query
  ts ← gets (λ s. s.reset_tokens)
  or_none (find_reset token ts) no_rows

-- `DeletePasswordResetToken`
unfoldable pub delete_password_reset_token : String → Go Accounts (Unit {0})
delete_password_reset_token token = do
  query
  modify λ s. record s { reset_tokens = drop_reset token s.reset_tokens }
