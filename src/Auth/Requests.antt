-- ===== src/Auth/Requests.antt =====
-- Every request to the auth service keeps a property of the table of users that the statements on
-- the table keep.
use entra_api.Base.{ℕ, String, not, Option, none, some, List, [], ◌∷◌, ltb, str_eq, if◌then◌else◌}
use entra_api.Base.Go.{message, no_rows, unavailable, Result, ok, err, pure, fail, ◌>>◌}
use entra_api.Base.Keeps.{
  Keeps, Keeps-pure, Keeps-fail, Keeps-gets, Keeps-fail_if, Keeps-or_none, Keeps-attempt,
  Keeps-ignore, Keeps-or_fail, Keeps-bind, Keeps-if,
}
use entra_api.Base.External.{Uuids}
use entra_api.Accounts.{User, RotatedTokenEntry, Accounts}
use entra_api.Accounts.Crypto.{Crypto}
use entra_api.Auth.{
  RegisterRequest, UpdateProfileRequest, JwtConfig, err_user_not_found, err_reset_token,
  err_old_password, pg_text_from_string, email_free, register, login, forget_rotation, rotate,
  refresh_token, logout,
}
use entra_api.Auth.Profile.{
  err_get_user, err_inactive, err_admin, pick_avatar, kept_avatar, update_profile,
  upgrade_to_organizer,
}
use entra_api.Auth.Passwords.{
  err_update_password, hash_token, issue_reset_token, forgot_password, reset_password,
  change_password,
}
use entra_api.Auth.Rules.{AuthRules, Keeps-found_or, hash-Keeps, tokens-Keeps}

module _ {crypto : Crypto} {P : Accounts → Type 0} (rules : AuthRules crypto P) (uuids : Uuids)
    (cfg : JwtConfig) where
  free-Keeps : (r : Result User) → Keeps P (email_free r)
  free-Keeps (ok u) = Keeps-fail _
  free-Keeps (err no_rows) = Keeps-pure tt
  free-Keeps (err unavailable) = Keeps-fail _
  free-Keeps (err (message m)) = Keeps-fail _

  pub register-Keeps : (req : RegisterRequest) → Keeps P (register uuids crypto cfg req)
  unfolding register
  register-Keeps req = Keeps-bind (Keeps-attempt (rules.by_email_keeps req.email)) λ r.
      Keeps-bind (free-Keeps r) λ _. Keeps-bind (hash-Keeps rules req.password) λ hash.
        Keeps-bind
          (Keeps-or_fail (message "failed to create user")
            (rules.create_keeps req.email hash req.full_name (pg_text_from_string req.phone)))
          λ u. Keeps-bind (tokens-Keeps rules uuids cfg u "" "") λ tokens. Keeps-pure (u, tokens)

  pub login-Keeps :
      (email password agent ip : String) → Keeps P (login uuids crypto cfg email password agent ip)
  unfolding login
  login-Keeps email password agent ip =
      Keeps-bind (Keeps-found_or _ _ (rules.by_email_keeps email)) λ u.
        Keeps-bind (Keeps-fail_if _ _)
          λ _. Keeps-bind (tokens-Keeps rules uuids cfg u agent ip) λ tokens. Keeps-pure _

  rotate-Keeps : (token agent ip : String) → Keeps P (rotate uuids crypto cfg token agent ip)
  unfolding rotate
  rotate-Keeps token agent ip =
      Keeps-bind (Keeps-found_or _ _ (rules.get_refresh_keeps token)) λ row.
        Keeps-bind (Keeps-ignore (rules.drop_refresh_keeps token)) λ _.
          Keeps-bind (Keeps-or_fail err_user_not_found (rules.by_id_keeps row.user_id)) λ u.
            Keeps-bind (tokens-Keeps rules uuids cfg u agent ip)
              λ tokens. Keeps-bind (rules.remember_keeps token tokens) λ _. Keeps-pure tokens

  pub refresh-Keeps :
      (token agent ip : String) → Keeps P (refresh_token uuids crypto cfg token agent ip)
  unfolding refresh_token
  refresh-Keeps token agent ip =
      Keeps-bind (Keeps-gets λ s. s.recent_rotations token)
        λ entry. Keeps-bind (Keeps-gets λ s. s.env.now) λ now. by_entry now entry
    where
      by_entry :
          (now : ℕ) (entry : Option RotatedTokenEntry)
          → Keeps P (elim entry [
            | none ↦ rotate uuids crypto cfg token agent ip
            | some e ↦
                if ltb now e.expires_at
                then pure e.tokens
                else (forget_rotation token >> rotate uuids crypto cfg token agent ip)
          ])
      by_entry now none = rotate-Keeps token agent ip
      by_entry now (some e) =
          Keeps-if _ (Keeps-pure _)
            (Keeps-bind (rules.forget_keeps token) λ _. rotate-Keeps token agent ip)

  pub logout-Keeps : (token : String) → Keeps P (logout token)
  unfolding logout
  logout-Keeps token = rules.drop_refresh_keeps token

  pub update_profile-Keeps :
      (user_id : String) (req : UpdateProfileRequest) → Keeps P (update_profile uuids user_id req)
  unfolding update_profile pick_avatar
  update_profile-Keeps user_id req =
      Keeps-bind (Keeps-or_none (uuids.parse user_id) err_user_not_found) λ id.
        Keeps-bind
          (Keeps-if (str_eq req.avatar_url "")
            (Keeps-bind (Keeps-attempt (rules.by_id_keeps id)) λ r. Keeps-pure (kept_avatar r))
            (Keeps-pure (pg_text_from_string req.avatar_url)))
          λ avatar.
            Keeps-found_or err_user_not_found (message "failed to update profile")
              (rules.profile_keeps id req.full_name (pg_text_from_string req.phone) avatar)

  pub upgrade-Keeps :
      (user_id agent ip : String) → Keeps P (upgrade_to_organizer uuids crypto cfg user_id agent ip)
  unfolding upgrade_to_organizer
  upgrade-Keeps user_id agent ip =
      Keeps-bind (Keeps-or_none (uuids.parse user_id) err_user_not_found) λ id.
        Keeps-bind (Keeps-found_or err_user_not_found err_get_user (rules.by_id_keeps id)) λ u.
          Keeps-bind (Keeps-fail_if (not u.is_active) err_inactive) λ _.
            Keeps-bind (Keeps-fail_if (str_eq u.role "admin") err_admin) λ _.
              Keeps-bind
                (Keeps-if (not (str_eq u.role "organizer"))
                  (Keeps-or_fail (message "failed to upgrade role") (rules.role_keeps id))
                  (Keeps-pure tt))
                λ _.
                  Keeps-bind
                    (Keeps-or_fail (message "failed to generate tokens")
                      (tokens-Keeps rules uuids cfg (record u { role = "organizer" }) agent ip))
                    λ tokens. Keeps-pure (record u { role = "organizer" }, tokens)

  pub forgot-Keeps : (email : String) → Keeps P (forgot_password crypto email)
  unfolding forgot_password issue_reset_token
  forgot-Keeps email = Keeps-bind (Keeps-attempt (rules.by_email_keeps email)) answered
    where
      answered :
          (r : Result User)
          → Keeps P (elim r [
            | ok u ↦ issue_reset_token crypto u
            | err e ↦ elim e [
              | no_rows ↦ pure ""
              | unavailable ↦ fail err_get_user
              | message _ ↦ fail err_get_user
            ]
          ])
      answered (ok u) = rules.issue_keeps u
      answered (err no_rows) = Keeps-pure ""
      answered (err unavailable) = Keeps-fail err_get_user
      answered (err (message m)) = Keeps-fail err_get_user

  pub reset-Keeps : (token password : String) → Keeps P (reset_password uuids crypto token password)
  unfolding reset_password
  reset-Keeps token password =
      Keeps-bind
        (Keeps-found_or err_reset_token (message "failed to get reset token")
          (rules.get_reset_keeps (hash_token crypto token)))
        λ row. Keeps-bind (Keeps-gets λ s. s.env.now) λ now.
          Keeps-bind (Keeps-fail_if (ltb row.expires_at now) err_reset_token) λ _.
            Keeps-bind (hash-Keeps rules password) λ hash.
              Keeps-bind (Keeps-or_fail err_update_password (rules.password_keeps row.user_id hash))
                λ _. Keeps-ignore (rules.drop_reset_keeps (hash_token crypto token))

  pub change-Keeps :
      (user_id old_password new_password : String)
      → Keeps P (change_password uuids crypto user_id old_password new_password)
  unfolding change_password
  change-Keeps user_id old_password new_password =
      Keeps-bind (Keeps-or_none (uuids.parse user_id) err_user_not_found) λ id.
        Keeps-bind (Keeps-found_or err_user_not_found err_get_user (rules.by_id_keeps id)) λ u.
          Keeps-bind
            (Keeps-fail_if (not (crypto.compare_hash_and_password u.password_hash old_password))
              err_old_password)
            λ _.
              Keeps-bind (hash-Keeps rules new_password)
                λ hash. Keeps-or_fail err_update_password (rules.password_keeps u.id hash)

-- What reaches the service.
pub data AuthRequest : Type 0 where
  sign_up : RegisterRequest → AuthRequest
  sign_in : String → String → String → String → AuthRequest
  renew : String → String → String → AuthRequest
  sign_out : String → AuthRequest
  edit : String → UpdateProfileRequest → AuthRequest
  upgrade : String → String → String → AuthRequest
  forgot : String → AuthRequest
  reset : String → String → AuthRequest
  change : String → String → String → AuthRequest

module _ (uuids : Uuids) (crypto : Crypto) (cfg : JwtConfig) where
  unfoldable pub serve : AuthRequest → Accounts → Accounts
  serve (sign_up req) s = (register uuids crypto cfg req s).1
  serve (sign_in email password agent ip) s = (login uuids crypto cfg email password agent ip s).1
  serve (renew token agent ip) s = (refresh_token uuids crypto cfg token agent ip s).1
  serve (sign_out token) s = (logout token s).1
  serve (edit user_id req) s = (update_profile uuids user_id req s).1
  serve (upgrade user_id agent ip) s = (upgrade_to_organizer uuids crypto cfg user_id agent ip s).1
  serve (forgot email) s = (forgot_password crypto email s).1
  serve (reset token password) s = (reset_password uuids crypto token password s).1
  serve (change user_id old new) s = (change_password uuids crypto user_id old new s).1

  unfoldable pub serve_requests : List AuthRequest → Accounts → Accounts
  serve_requests [] s = s
  serve_requests (r ∷ rs) s = serve_requests rs (serve r s)

  module _ {P : Accounts → Type 0} (rules : AuthRules crypto P) where
    serve_keeps : (r : AuthRequest) (s : Accounts) → P s → P (serve r s)
    unfolding serve
    serve_keeps (sign_up req) = (register-Keeps rules uuids cfg req).run
    serve_keeps (sign_in email password agent ip) =
        (login-Keeps rules uuids cfg email password agent ip).run
    serve_keeps (renew token agent ip) = (refresh-Keeps rules uuids cfg token agent ip).run
    serve_keeps (sign_out token) = (logout-Keeps rules uuids cfg token).run
    serve_keeps (edit user_id req) = (update_profile-Keeps rules uuids cfg user_id req).run
    serve_keeps (upgrade user_id agent ip) = (upgrade-Keeps rules uuids cfg user_id agent ip).run
    serve_keeps (forgot email) = (forgot-Keeps rules uuids cfg email).run
    serve_keeps (reset token password) = (reset-Keeps rules uuids cfg token password).run
    serve_keeps (change user_id old new) = (change-Keeps rules uuids cfg user_id old new).run

    pub serve_requests_keep : (rs : List AuthRequest) (s : Accounts) → P s → P (serve_requests rs s)
    unfolding serve_requests
    serve_requests_keep [] s h = h
    serve_requests_keep (r ∷ rs) s h = serve_requests_keep rs (serve r s) (serve_keeps r s h)
