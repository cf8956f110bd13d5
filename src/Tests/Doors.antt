-- ===== src/Tests/Doors.antt =====
-- Tokens of a small JWT library, and requests with them.
use entra_api.Base.{
  ℕ, String, ◌≡◌, refl, Bool, true, ◌⊎◌, inl, inr, Option, none, some, [], ◌∷◌, subst, arith,
  if◌then◌else◌, Bool-cases,
}
use entra_api.Base.Samples.{sample_uuids, write_unary}
use entra_api.Accounts.{TokenPair}
use entra_api.Accounts.Crypto.{Claims, Crypto}
use entra_api.Auth.{JwtConfig, register, login}
use entra_api.Auth.Requests.{sign_up, serve, serve_requests}
use entra_api.Notifications.{first_part, rest_parts}
use entra_api.Notifications.Ids.{is_plain, join_underscore, first_part-join_underscore}
use entra_api.Middleware.{
  ParseWithClaims, JwtClaims, Request, Context, key_for, chain, jwt_auth, require_role,
  require_internal_secret_or_roles, knows_secret,
}
use entra_api.Middleware.Doors.{admitted, secret_or_roles}
use entra_api.Middleware.Holders.{
  ReadsSigned, door, with_token, Refused, login_opens_doors, no_admin_session,
}
use entra_api.Middleware.Routes.{
  admin_list_withdrawals, admin_update_withdrawal_status, get_admin_platform_stats,
}
use entra_api.Tests.People.{sample_crypto, person, town, bob}

-- A token is the role and the id with an underscore between them.
abbrev sign : Claims → String → Option String
sign claims secret =
    if is_plain claims.role then some (join_underscore claims.role claims.user_id) else none

abbrev signing_crypto : Crypto
signing_crypto = record sample_crypto { signed_string = sign }

abbrev parse_id : String → Option String → Option JwtClaims
parse_id token none = none
parse_id token (some id) = some (record { user_id = id; role = first_part token })

abbrev parse : ParseWithClaims
parse now token key = parse_id token (rest_parts token)

rest_parts-join_underscore :
    (s t : String) → is_plain s ≡ true → rest_parts (join_underscore s t) ≡ some t
unfolding rest_parts join_underscore is_plain
rest_parts-join_underscore String.[] t h = refl
rest_parts-join_underscore (String.◌∷◌ c s) t h = ground (arith, h, rest_parts-join_underscore s t)

parse-join_underscore :
    (role id : String) (now : ℕ) (key : Bool → Option String)
    → is_plain role ≡ true
    → parse now (join_underscore role id) key ≡ some (record { user_id = id; role = role })
parse-join_underscore role id now key plain =
    ground
      (arith, first_part-join_underscore role id plain, rest_parts-join_underscore role id plain)

parse-ReadsSigned : ReadsSigned signing_crypto parse
parse-ReadsSigned claims secret token now h early = elim (Bool-cases (is_plain claims.role)) [
  | inl plain ↦
      subst
        (λ x.
          parse now x (key_for secret)
          ≡ some (record { user_id = claims.user_id; role = claims.role }))
        (ground (arith, h, plain))
        (parse-join_underscore claims.role claims.user_id now (key_for secret) plain)
  | inr spoilt ↦ absurd (ground (arith, h, spoilt))
]

-- A session lasts for fifteen minutes.
abbrev config : JwtConfig
config = record { secret = "s"; access_expiry = 900000000000; refresh_expiry = 604800000000000 }

abbrev visit : Request
visit = record { authorization = ""; internal_secret = ""; app_env = "production"; now = 5000 }

abbrev knock : Request
knock = record visit { authorization = "Bearer customer_uuu" }

abbrev empty : Context
empty = record { auth_user_id = none; auth_user_role = none }

-- The pair that the first draw makes for Ann.
abbrev ann_pair : ℕ → TokenPair
ann_pair n = record {
  access_token = "customer_uuu";
  refresh_token = write_unary n;
  expires_at = 900;
}

secret_or_roles_example :
    admitted (require_internal_secret_or_roles parse "i" "s" ("customer" ∷ []) knock empty) ≡ (
      if knows_secret "i" knock
      then some empty
      else admitted (chain (jwt_auth parse "s" ∷ require_role ("customer" ∷ []) ∷ []) knock empty))
secret_or_roles_example = secret_or_roles parse "i" "s" ("customer" ∷ []) knock empty

login_opens_doors_example :
    chain
      (jwt_auth parse config.secret ∷ require_role ("customer" ∷ []) ∷ [])
      (with_token "customer_uuu" visit)
      empty
    ≡ door sample_uuids signing_crypto config (person 2 "ann@x" "customer") ("customer" ∷ []) empty
unfolding login entra_api.Accounts.get_user_row_by_email entra_api.Accounts.query
    entra_api.Accounts.find_user_by_email entra_api.Auth.generate_token_pair is_plain
    entra_api.Auth.draw entra_api.Accounts.Tokens.create_refresh_token
    entra_api.Accounts.Tokens.token_taken join_underscore
login_opens_doors_example =
    login_opens_doors sample_uuids signing_crypto config parse parse-ReadsSigned "ann@x" "old" "" ""
      (person 2 "ann@x" "customer") (ann_pair 0) town ("customer" ∷ []) visit empty refl
      (omega arith)

-- The administrator is the first account.
abbrev IsRoot : ℕ → String → Type 0
IsRoot id role = id ≡ 1

no_admin_session_example :
    IsRoot 2 "customer"
    ⊎ (Refused sample_uuids signing_crypto config parse parse-ReadsSigned "i" admin_list_withdrawals
          (with_token "customer_uuu" visit)
          empty
        × Refused sample_uuids signing_crypto config parse parse-ReadsSigned "i"
            admin_update_withdrawal_status
            (with_token "customer_uuu" visit)
            empty
        × Refused sample_uuids signing_crypto config parse parse-ReadsSigned "i"
            get_admin_platform_stats
            (with_token "customer_uuu" visit)
            empty)
unfolding serve_requests serve register login entra_api.Accounts.get_user_row_by_email
    entra_api.Accounts.query entra_api.Accounts.find_user_by_email entra_api.Auth.hash_password
    entra_api.Auth.draw entra_api.Accounts.create_user entra_api.Accounts.insert_unless_taken
    entra_api.Accounts.email_taken entra_api.Accounts.insert_user entra_api.Auth.generate_token_pair
    entra_api.Accounts.Tokens.create_refresh_token entra_api.Accounts.Tokens.token_taken is_plain
    join_underscore
no_admin_session_example =
    no_admin_session sample_uuids signing_crypto config parse parse-ReadsSigned IsRoot "i" "ann@x"
      "old" "" "" (person 2 "ann@x" "customer") (ann_pair 2) (sign_up bob ∷ []) town visit empty
      (inr (inr refl), (inl refl, tt)) refl (omega arith)
