-- ===== src/Auth/Profile.antt =====
-- Profiles and roles: `GetProfile`, `UpdateProfile` and `UpgradeToOrganizer` of
-- auth-service/internal/service/auth_service.go.
use entra_api.Base.{ℕ, String, not, Option, none, str_eq, if◌then◌else◌}
use entra_api.Base.Go.{
  Go, Error, message, Result, ok, err, pure, attempt, or_none, or_fail, fail_if, when, ◌>>=◌, ◌>>◌,
}
use entra_api.Base.External.{Uuids}
use entra_api.Accounts.{
  User, TokenPair, Accounts, get_user_by_id, update_user_role, update_user_profile,
}
use entra_api.Accounts.Crypto.{Crypto}
use entra_api.Auth.{
  UpdateProfileRequest, JwtConfig, err_user_not_found, pg_text_from_string, found_or,
  generate_token_pair,
}

-- An empty avatar in the request keeps the one that the account has.
abbrev pub kept_avatar : Result User → Option String
kept_avatar (ok u) = u.avatar_url
kept_avatar (err _) = none

abbrev pub err_get_user : Error
err_get_user = message "failed to get user"

abbrev pub err_inactive : Error
err_inactive = message "inactive user cannot be upgraded to organizer"

abbrev pub err_admin : Error
err_admin = message "admin user cannot be changed to organizer"

module _ (uuids : Uuids) where
  -- `GetProfile`
  unfoldable pub get_profile : String → Go Accounts User
  get_profile user_id = do
    id ← or_none (uuids.parse user_id) err_user_not_found
    found_or (get_user_by_id id) err_user_not_found err_get_user

  unfoldable pub pick_avatar : ℕ → String → Go Accounts (Option String)
  pick_avatar id url =
      if str_eq url ""
      then (do r ← attempt (get_user_by_id id); pure (kept_avatar r))
      else pure (pg_text_from_string url)

  -- `UpdateProfile`
  unfoldable pub update_profile : String → UpdateProfileRequest → Go Accounts User
  update_profile user_id req = do
    id ← or_none (uuids.parse user_id) err_user_not_found
    avatar ← pick_avatar id req.avatar_url
    found_or (update_user_profile id req.full_name (pg_text_from_string req.phone) avatar)
        err_user_not_found (message "failed to update profile")

module _ (uuids : Uuids) (crypto : Crypto) (cfg : JwtConfig) where
  -- `UpgradeToOrganizer`
  unfoldable pub upgrade_to_organizer : String → String → String → Go Accounts (User × TokenPair)
  upgrade_to_organizer user_id agent ip = do
    id ← or_none (uuids.parse user_id) err_user_not_found
    u ← found_or (get_user_by_id id) err_user_not_found err_get_user
    fail_if (not u.is_active) err_inactive
    fail_if (str_eq u.role "admin") err_admin
    when (not (str_eq u.role "organizer"))
        (or_fail (update_user_role id "organizer") (message "failed to upgrade role"))
    let upgraded = record u { role = "organizer" }
    tokens ←
        or_fail (generate_token_pair uuids crypto cfg upgraded agent ip)
          (message "failed to generate tokens")
    pure (upgraded, tokens)
