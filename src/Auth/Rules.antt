-- ===== src/Auth/Rules.antt =====
-- What a property of the accounts has to be kept by, step by step, to be kept by every request to the
-- auth service.
use entra_api.Base.{ℕ, String, Option}
use entra_api.Base.Go.{Go, message, no_rows, unavailable, Result, ok, err}
use entra_api.Base.Keeps.{
  Keeps, Keeps-pure, Keeps-fail, Keeps-gets, Keeps-or_none, Keeps-attempt, Keeps-or_fail,
  Keeps-bind,
}
use entra_api.Base.External.{Uuids}
use entra_api.Base.Go.{Error}
use entra_api.Accounts.{
  User, RefreshToken, TokenPair, Accounts, get_user_by_id, get_user_row_by_email, create_user,
  update_user_password, update_user_role, update_user_profile,
}
use entra_api.Accounts.Crypto.{Crypto}
use entra_api.Accounts.Tokens.{
  create_refresh_token, get_refresh_token, delete_refresh_token, get_password_reset_token,
  delete_password_reset_token,
}
use entra_api.Auth.{
  JwtConfig, or_missing, found_or, draw, hash_password, claims_of, refresh_row, pair_of,
  generate_token_pair, remember_rotation, forget_rotation,
}
use entra_api.Auth.Passwords.{issue_reset_token}

pub record AuthRules (crypto : Crypto) (P : Accounts → Type 0) : Type 0 where
  pub draw_keeps : Keeps P draw
  pub by_id_keeps : (id : ℕ) → Keeps P (get_user_by_id id)
  pub by_email_keeps : (email : String) → Keeps P (get_user_row_by_email email)
  pub new_refresh_keeps : (t : RefreshToken) → Keeps P (create_refresh_token t)
  pub get_refresh_keeps : (token : String) → Keeps P (get_refresh_token token)
  pub drop_refresh_keeps : (token : String) → Keeps P (delete_refresh_token token)
  pub get_reset_keeps : (token : String) → Keeps P (get_password_reset_token token)
  pub drop_reset_keeps : (token : String) → Keeps P (delete_password_reset_token token)
  pub remember_keeps : (token : String) (t : TokenPair) → Keeps P (remember_rotation token t)
  pub forget_keeps : (token : String) → Keeps P (forget_rotation token)
  pub issue_keeps : (u : User) → Keeps P (issue_reset_token crypto u)
  pub create_keeps :
      (email hash name : String) (phone : Option String)
      → Keeps P (create_user email hash name phone "customer")
  pub password_keeps : (id : ℕ) (hash : String) → Keeps P (update_user_password id hash)
  pub role_keeps : (id : ℕ) → Keeps P (update_user_role id "organizer")
  pub profile_keeps :
      (id : ℕ) (name : String) (phone avatar : Option String)
      → Keeps P (update_user_profile id name phone avatar)

pub Keeps-found_or :
    {A : Type 0} {P : Accounts → Type 0} {m : Go Accounts A} (missing failed : Error)
    → Keeps P m
    → Keeps P (found_or m missing failed)
Keeps-found_or {A} {P} {m} missing failed k = Keeps-bind (Keeps-attempt k) answered
  where
    answered : (r : Result A) → Keeps P (or_missing r missing failed)
    answered (ok a) = Keeps-pure a
    answered (err no_rows) = Keeps-fail missing
    answered (err unavailable) = Keeps-fail failed
    answered (err (message m)) = Keeps-fail failed

module _ {crypto : Crypto} {P : Accounts → Type 0} (rules : AuthRules crypto P) where
  pub hash-Keeps : (p : String) → Keeps P (hash_password crypto p)
  unfolding hash_password
  hash-Keeps p =
      Keeps-bind rules.draw_keeps
        λ n. Keeps-or_none (crypto.generate_from_password p n) (message "failed to hash password")

  pub tokens-Keeps :
      (uuids : Uuids) (cfg : JwtConfig) (u : User) (agent ip : String)
      → Keeps P (generate_token_pair uuids crypto cfg u agent ip)
  unfolding generate_token_pair
  tokens-Keeps uuids cfg u agent ip = Keeps-bind (Keeps-gets λ s. s.env.now) λ now.
      Keeps-bind
        (Keeps-or_none (crypto.signed_string (claims_of uuids crypto cfg u now) cfg.secret)
          (message "failed to sign access token"))
        λ access. Keeps-bind rules.draw_keeps λ n.
          Keeps-bind
            (Keeps-or_none (crypto.random_token n) (message "failed to generate refresh token"))
            λ refresh.
              Keeps-bind
                (Keeps-or_fail (message "failed to store refresh token")
                  (rules.new_refresh_keeps (refresh_row uuids crypto cfg u now refresh agent ip)))
                λ _. Keeps-pure (pair_of uuids crypto cfg now access refresh)
