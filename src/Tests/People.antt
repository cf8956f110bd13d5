-- ===== src/Tests/People.antt =====
-- An auth service with an administrator and a customer, and its libraries.
use entra_api.Base.{ℕ, String, ◌≡◌, true, none, some, [], ◌∷◌, arith, str_eq, eq_iff}
use entra_api.Base.Samples.{write_unary}
use entra_api.Accounts.{User, TokenPair, Accounts}
use entra_api.Accounts.Crypto.{Crypto}
use entra_api.Auth.{JwtConfig, RegisterRequest}

pub plain_text : (p : String) (n : ℕ) (h : String) → some p ≡ some h → str_eq h p ≡ true
plain_text p n h e = ground (arith, eq_iff h p)

-- A hash is the password itself.
abbrev pub sample_crypto : Crypto
sample_crypto = record {
  generate_from_password = λ p n. some p;
  compare_hash_and_password = str_eq;
  signed_string = λ claims secret. some "jwt";
  random_token = λ n. some (write_unary n);
  new_uuid = write_unary;
  sha256_hex = λ s. s;
  compare-generate = plain_text;
}

abbrev pub sample_config : JwtConfig
sample_config = record { secret = "s"; access_expiry = 900; refresh_expiry = 604800000000000 }

abbrev pub person : ℕ → String → String → User
person id email role = record {
  id = id;
  email = email;
  password_hash = "old";
  full_name = "P";
  phone = none;
  role = role;
  avatar_url = none;
  is_active = true;
}

abbrev pub town : Accounts
town = record {
  env = record { now = 0; script = [] };
  users = person 1 "root@x" "admin" ∷ person 2 "ann@x" "customer" ∷ [];
  refresh_tokens =
      record {
        user_id = 2;
        token = "first";
        user_agent = none;
        ip_address = none;
        expires_at = 1000;
      }
      ∷ [];
  reset_tokens = [];
  recent_rotations = λ token. none;
  drawn = 0;
  next_id = 3;
}

abbrev pub bob : RegisterRequest
bob = record { email = "bob@x"; password = "pw"; full_name = "Bob"; phone = ""; role = "admin" }

-- The pair that the first draw makes.
abbrev pub first_pair : TokenPair
first_pair = record { access_token = "jwt"; refresh_token = "u"; expires_at = 0 }

-- A reset token is out.
abbrev pub forgetful : Accounts
forgetful = record town {
  reset_tokens = record { user_id = 2; token = "tok"; expires_at = 100 } ∷ [];
}
