-- ===== src/Accounts/Crypto.antt =====
-- What the auth service takes from packages outside the repository for passwords and tokens.
use entra_api.Base.{ℕ, String, ◌≡◌, Bool, true, Option, some}

-- The claims of an access token; `iat` and `exp` are Unix seconds.
pub record Claims : Type 0 where
  pub user_id : String
  pub email : String
  pub role : String
  pub iat : ℕ
  pub exp : ℕ

-- bcrypt, golang-jwt, and the random source, whose n-th draw is taken at the number n. `sha256_hex`
-- is the hexadecimal text of a SHA-256 sum.
pub record Crypto : Type 0 where
  pub generate_from_password : String → ℕ → Option String
  pub compare_hash_and_password : String → String → Bool
  pub signed_string : Claims → String → Option String
  pub random_token : ℕ → Option String
  pub new_uuid : ℕ → String
  pub sha256_hex : String → String
  -- A hash compares as equal with the password that it was made of.
  pub compare-generate :
      (p : String) (n : ℕ) (h : String)
      → generate_from_password p n ≡ some h
      → compare_hash_and_password h p ≡ true
