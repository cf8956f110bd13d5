-- ===== src/Accounts.antt =====
-- The database of the auth service (auth-service/internal/repository/db): the tables `users`,
-- `refresh_tokens` and `password_reset_tokens` with their queries, and the rest of the state that
-- auth-service/internal/service/auth_service.go keeps.
pub mod Crypto
pub mod Tokens
pub mod Calm
use entra_api.Base.{
  ℕ, suc, String, Bool, true, false, ◌&&◌, ◌||◌, Option, none, some, List, [], ◌∷◌, ◌++◌, ◌==◌, ltb,
  str_eq, if◌then◌else◌,
}
use entra_api.Base.Go.{
  Go, Error, message, no_rows, unavailable, ok, err, Env, call, gets, or_none, fail_if, modify,
  ◌>>=◌, ◌>>◌,
}

-- A row of `users`, with the columns that the service reads.
pub record User : Type 0 where
  pub id : ℕ
  pub email : String
  pub password_hash : String
  pub full_name : String
  pub phone : Option String
  pub role : String
  pub avatar_url : Option String
  pub is_active : Bool

pub record RefreshToken : Type 0 where
  pub user_id : ℕ
  pub token : String
  pub user_agent : Option String
  pub ip_address : Option String
  pub expires_at : ℕ

pub record PasswordResetToken : Type 0 where
  pub user_id : ℕ
  pub token : String
  pub expires_at : ℕ

pub record TokenPair : Type 0 where
  pub access_token : String
  pub refresh_token : String
  pub expires_at : ℕ

-- What `recentRotations` holds for an old token.
pub record RotatedTokenEntry : Type 0 where
  pub tokens : TokenPair
  pub expires_at : ℕ

-- `AuthService` with its tables. `drawn` counts the draws from the random source.
pub record Accounts : Type 0 where
  pub env : Env
  pub users : List User
  pub refresh_tokens : List RefreshToken
  pub reset_tokens : List PasswordResetToken
  pub recent_rotations : String → Option RotatedTokenEntry
  pub drawn : ℕ
  pub next_id : ℕ

abbrev pub set_users : (List User → List User) → Accounts → Accounts
set_users f s = record s { users = f s.users }

-- One call to the database.
unfoldable pub query : Go Accounts (Unit {0})
query s =
    let (fails, env) = call s.env in
    (if fails then err unavailable else ok tt, record s { env = env })

-- A violation of a UNIQUE constraint.
abbrev pub err_duplicate : Error
err_duplicate = message "duplicate key value violates unique constraint"

-- `WHERE id = $1 AND is_active = TRUE`
unfoldable pub find_user : ℕ → List User → Option User
find_user id [] = none
find_user id (u ∷ us) = if u.id == id && u.is_active then some u else find_user id us

-- `WHERE email = $1 AND is_active = TRUE`
unfoldable pub find_user_by_email : String → List User → Option User
find_user_by_email email [] = none
find_user_by_email email (u ∷ us) =
    if str_eq u.email email && u.is_active then some u else find_user_by_email email us

-- Whether the UNIQUE constraint on `email` refuses a new row.
unfoldable pub email_taken : String → List User → Bool
email_taken email [] = false
email_taken email (u ∷ us) = str_eq u.email email || email_taken email us

unfoldable pub set_password : ℕ → String → List User → List User
set_password id hash [] = []
set_password id hash (u ∷ us) =
    if u.id == id then record u { password_hash = hash } ∷ us else u ∷ set_password id hash us

unfoldable pub set_role : ℕ → String → List User → List User
set_role id role [] = []
set_role id role (u ∷ us) =
    if u.id == id then record u { role = role } ∷ us else u ∷ set_role id role us

abbrev pub with_profile : String → Option String → Option String → User → User
with_profile name phone avatar u = record u { full_name = name; phone = phone; avatar_url = avatar }

unfoldable pub set_profile : ℕ → String → Option String → Option String → List User → List User
set_profile id name phone avatar [] = []
set_profile id name phone avatar (u ∷ us) =
    if u.id == id && u.is_active
    then with_profile name phone avatar u ∷ us
    else u ∷ set_profile id name phone avatar us

-- `GetUserByID`
unfoldable pub get_user_by_id : ℕ → Go Accounts User
get_user_by_id id = do query; users ← gets (λ s. s.users); or_none (find_user id users) no_rows

-- `GetUserByEmail`
unfoldable pub get_user_row_by_email : String → Go Accounts User
get_user_row_by_email email = do
  query
  users ← gets (λ s. s.users)
  or_none (find_user_by_email email users) no_rows

-- `CreateUser`: the new row gets the next id, and the columns' defaults.
unfoldable pub insert_user : String → String → String → Option String → String → Go Accounts User
insert_user email hash name phone role s =
    let u : User = record {
      id = s.next_id;
      email = email;
      password_hash = hash;
      full_name = name;
      phone = phone;
      role = role;
      avatar_url = none;
      is_active = true;
    } in
    (ok u, record s { users = s.users ++ u ∷ []; next_id = suc s.next_id })

unfoldable pub insert_unless_taken :
    String → String → String → Option String → String → Go Accounts User
insert_unless_taken email hash name phone role = do
  users ← gets (λ s. s.users)
  fail_if (email_taken email users) err_duplicate
  insert_user email hash name phone role

unfoldable pub create_user : String → String → String → Option String → String → Go Accounts User
create_user email hash name phone role = do query; insert_unless_taken email hash name phone role

-- `UpdateUserPassword`
unfoldable pub update_user_password : ℕ → String → Go Accounts (Unit {0})
update_user_password id hash = do query; modify (set_users (set_password id hash))

-- `UpdateUserRole`
unfoldable pub update_user_role : ℕ → String → Go Accounts (Unit {0})
update_user_role id role = do query; modify (set_users (set_role id role))

-- `UpdateUserProfile`
unfoldable pub update_user_profile : ℕ → String → Option String → Option String → Go Accounts User
update_user_profile id name phone avatar = do
  query
  users ← gets (λ s. s.users)
  u ← or_none (find_user id users) no_rows
  modify (set_users (set_profile id name phone avatar))
  gets λ _. with_profile name phone avatar u
