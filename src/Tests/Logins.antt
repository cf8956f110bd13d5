-- ===== src/Tests/Logins.antt =====
-- Registrations, logins and recovered passwords.
use Prim.Native.Char.{code}
use entra_api.Base.{String, ℕ, false, true, zero, suc, ◌≤◌, ◌≢◌, ap}
use entra_api.Base.Go.{Env}
use entra_api.Base.Samples.{write_unary}
use entra_api.Accounts.{query}
use entra_api.Auth.Requests.{reset}
use entra_api.Base.{if◌then◌else◌, ltb, ◌≡◌, ◌+◌, refl, List, [], ◌∷◌, arith, inl, inr, All}
use entra_api.Base.Go.{Result, ok, err}
use entra_api.Base.Samples.{sample_uuids, differs}
use entra_api.Accounts.{User, Accounts}
use entra_api.Auth.{
  err_invalid_credentials, err_invalid_token, err_reset_token, grace_window, register, login,
  refresh_token,
}
use entra_api.Auth.Passwords.{forgot_password, reset_password}
use entra_api.Auth.Requests.{AuthRequest, sign_up, upgrade, forgot, serve_requests}
use entra_api.Auth.Roles.{HasRole, no_new_admins}
use entra_api.Auth.Distinct.{Distinct, accounts_stay-Distinct}
use entra_api.Auth.Sessions.{session_for, register-login}
use entra_api.Auth.Rotation.{at_time, rotates_once}
use entra_api.Auth.Recovery.{refusal, afterwards, resets_once}
use entra_api.Auth.Regained.{forgot-reset-login}
use entra_api.Tests.People.{first_pair, forgetful, sample_crypto, sample_config, person, town, bob}

abbrev morning : List AuthRequest
morning = sign_up bob ∷ upgrade "uuu" "" "" ∷ forgot "ann@x" ∷ []

no_new_admins_example :
    All
      (HasRole (λ id role. id ≡ 1))
      (serve_requests sample_uuids sample_crypto sample_config morning town).users
no_new_admins_example =
    no_new_admins (λ id role. id ≡ 1) sample_uuids sample_crypto sample_config morning town
      (inr (inr refl), (inl refl, tt))

town-Distinct : Distinct town.next_id town.users
town-Distinct =
    (omega arith, ((λ p. omega arith, differs "root@x" "ann@x" refl), tt), (omega arith, tt, tt))

accounts_stay-Distinct_example :
    Distinct
      (serve_requests sample_uuids sample_crypto sample_config morning town).next_id
      (serve_requests sample_uuids sample_crypto sample_config morning town).users
accounts_stay-Distinct_example =
    accounts_stay-Distinct sample_uuids sample_crypto sample_config morning town town-Distinct

abbrev new_bob : User
new_bob = record (person 3 "bob@x" "customer") { password_hash = "pw"; full_name = "Bob" }

register-login_example :
    (new_bob.role ≡ "customer")
    × (login sample_uuids sample_crypto sample_config "bob@x" "pw" "" ""
          (register sample_uuids sample_crypto sample_config bob town).1
        ≡ session_for sample_uuids sample_crypto sample_config new_bob "" ""
            (register sample_uuids sample_crypto sample_config bob town).1)
    × ((login sample_uuids sample_crypto sample_config "bob@x" "no" "" ""
          (register sample_uuids sample_crypto sample_config bob town).1).0
        ≡ err err_invalid_credentials)
unfolding register entra_api.Accounts.get_user_row_by_email entra_api.Accounts.query
    entra_api.Accounts.find_user_by_email entra_api.Auth.hash_password entra_api.Auth.draw
    entra_api.Accounts.create_user entra_api.Accounts.insert_unless_taken
    entra_api.Accounts.email_taken entra_api.Accounts.insert_user entra_api.Auth.generate_token_pair
    entra_api.Accounts.Tokens.create_refresh_token entra_api.Accounts.Tokens.token_taken
register-login_example =
    register-login sample_uuids sample_crypto sample_config bob new_bob
      (record { access_token = "jwt"; refresh_token = "uu"; expires_at = 0 }) "no" "" "" town refl
      refl refl

rotates_once_example :
    (refresh_token sample_uuids sample_crypto sample_config "first" "b" ""
      (at_time 7 (refresh_token sample_uuids sample_crypto sample_config "first" "a" "" town).1)).0
    ≡ (if ltb 7 (0 + grace_window) then ok first_pair else err err_invalid_token)
unfolding refresh_token entra_api.Auth.rotate entra_api.Accounts.Tokens.get_refresh_token
    entra_api.Accounts.query entra_api.Accounts.Tokens.find_refresh
    entra_api.Accounts.get_user_by_id entra_api.Accounts.Tokens.delete_refresh_token
    entra_api.Accounts.find_user entra_api.Auth.generate_token_pair entra_api.Auth.draw
    entra_api.Accounts.Tokens.create_refresh_token entra_api.Accounts.Tokens.token_taken
    entra_api.Accounts.Tokens.drop_refresh entra_api.Auth.remember_rotation
rotates_once_example =
    rotates_once sample_uuids sample_crypto sample_config "first" "a" "" "b" "" first_pair 7 town
      refl refl (differs "u" "first" refl) refl

-- The code of the first character.
abbrev first_code : String → ℕ
first_code String.[] = 0
first_code (String.◌∷◌ c s) = code c

unary-not-tok : (k : ℕ) → 0 ≤ k → write_unary k ≢ "tok"
unary-not-tok zero h e = ground (arith, ap first_code e)
unary-not-tok (suc k) h e = ground (arith, ap first_code e)

-- A day later; the second call fails.
abbrev next_day : Env
next_day = record {
  now = 86400000000000;
  script = record { fails = false; elapsed = 1 } ∷ record { fails = true; elapsed = 1 } ∷ [];
}

abbrev much_later : Accounts
much_later =
    afterwards sample_uuids sample_crypto sample_config "tok" "new"
      (forgot "ann@x" ∷ reset "tok" "more" ∷ sign_up bob ∷ []) next_day forgetful

resets_once_example :
    reset_password sample_uuids sample_crypto "tok" "again" much_later
    ≡ (err (refusal much_later), (query much_later).1)
unfolding reset_password entra_api.Accounts.Tokens.get_password_reset_token query
    entra_api.Accounts.Tokens.find_reset entra_api.Auth.hash_password entra_api.Auth.draw
    entra_api.Accounts.update_user_password
resets_once_example =
    resets_once sample_uuids sample_crypto sample_config "tok" "new" "again"
      (forgot "ann@x" ∷ reset "tok" "more" ∷ sign_up bob ∷ []) next_day forgetful refl unary-not-tok
      refl

abbrev recovered : Result (Unit {0}) × Accounts
recovered =
    reset_password sample_uuids sample_crypto "u" "new"
      (at_time 9 (forgot_password sample_crypto "ann@x" town).1)

forgot-reset-login_example :
    (recovered.0 ≡ ok tt)
    × (login sample_uuids sample_crypto sample_config "ann@x" "new" "" "" recovered.1
        ≡ session_for sample_uuids sample_crypto sample_config
            (record (person 2 "ann@x" "customer") { password_hash = "new" })
            ""
            ""
            recovered.1)
unfolding entra_api.Accounts.find_user_by_email forgot_password
    entra_api.Accounts.get_user_row_by_email entra_api.Accounts.query
    entra_api.Auth.Passwords.issue_reset_token entra_api.Auth.draw
    entra_api.Accounts.Tokens.create_password_reset_token entra_api.Accounts.Tokens.reset_taken
forgot-reset-login_example =
    forgot-reset-login sample_uuids sample_crypto sample_config "ann@x" "u" "new" "new" "" ""
      (person 2 "ann@x" "customer") 9 town refl town-Distinct refl refl (omega arith) refl
