-- ===== src/Middleware.antt =====
-- The guards in front of the handlers: shared/middleware/auth.go. A middleware takes a request and
-- the values that the context holds; it aborts with a status, or goes on with the context.
pub mod Routes
pub mod Doors
pub mod Holders
use Prim.Native.Char.{code}
use entra_api.Base.{
  ℕ, ◌+◌, String, Bool, true, false, not, ◌&&◌, ◌||◌, Option, none, some, List, [], ◌∷◌, ◌==◌, leb,
  str_eq, if◌then◌else◌,
}

-- `JWTClaims`, whose registered claims are for the parser only.
pub record JwtClaims : Type 0 where
  pub user_id : String
  pub role : String

-- golang-jwt's `ParseWithClaims` at a time, with the function that gives the key for a signing
-- method: true stands for one of the HMAC methods. None is an error or a token that is not valid.
abbrev pub ParseWithClaims : Type 0
ParseWithClaims = ℕ → String → (Bool → Option String) → Option JwtClaims

-- What a guard reads of a request: two headers, where a missing one is empty, the variable APP_ENV
-- of the server and the time of the server's clock.
pub record Request : Type 0 where
  pub authorization : String
  pub internal_secret : String
  pub app_env : String
  pub now : ℕ

-- The values that a guard leaves for the handlers, each under two keys in the source.
pub record Context : Type 0 where
  pub auth_user_id : Option String
  pub auth_user_role : Option String

-- `c.Next()`, and `c.AbortWithStatusJSON`.
pub data Passage : Type 0 where
  next : Context → Passage
  abort : ℕ → String → Passage

abbrev pub Middleware : Type 0
Middleware = Request → Context → Passage

-- A route's chain of middleware.
unfoldable pub chain : List Middleware → Middleware
chain [] r c = next c
chain (m ∷ ms) r c = elim (m r c) [
  | next c' ↦ chain ms r c'
  | abort status text ↦ abort status text
]

abbrev pub is_space : ℕ → Bool
is_space c = c == 32

-- `strings.SplitN(s, " ", 2)`, where there are two parts.
unfoldable pub split_space : String → Option (String × String)
split_space String.[] = none
split_space (String.◌∷◌ c s) =
    let rest = split_space s in
    if is_space (code c)
    then some (String.[], s)
    else elim rest [ none ↦ none | some p ↦ some (String.◌∷◌ c (p.0), p.1) ]

abbrev pub lower : ℕ → ℕ
lower c = if leb 65 c && leb c 90 then c + 32 else c

-- `strings.EqualFold` with a text of the letters of "bearer", which fold with no letter outside
-- ASCII.
unfoldable pub equal_fold : String → String → Bool
equal_fold String.[] String.[] = true
equal_fold String.[] (String.◌∷◌ d t) = false
equal_fold (String.◌∷◌ c s) String.[] = false
equal_fold (String.◌∷◌ c s) (String.◌∷◌ d t) = lower (code c) == lower (code d) && equal_fold s t

-- The token behind the word "bearer".
unfoldable pub bearer_token : String → Option String
bearer_token header = elim (split_space header) [
  | none ↦ none
  | some p ↦ if equal_fold (p.0) "bearer" then some (p.1) else none
]

-- The key is given out for an HMAC method only.
abbrev pub key_for : String → Bool → Option String
key_for secret true = some secret
key_for secret false = none

abbrev pub with_claims : JwtClaims → Context → Context
with_claims claims c = record {
  auth_user_id = some claims.user_id;
  auth_user_role = some claims.role;
}

abbrev pub invalid_token : Passage
invalid_token = abort 401 "invalid or expired token"

unfoldable pub has_role : String → List String → Bool
has_role role [] = false
has_role role (r ∷ rs) = str_eq role r || has_role role rs

module _ (parse_with_claims : ParseWithClaims) where
  abbrev pub accept_claims : Option JwtClaims → Context → Passage
  accept_claims none c = invalid_token
  accept_claims (some claims) c = next (with_claims claims c)

  abbrev pub accept_bearer : String → ℕ → Option String → Context → Passage
  accept_bearer secret now none c = abort 401 "invalid authorization header format"
  accept_bearer secret now (some token) c =
      accept_claims (parse_with_claims now token (key_for secret)) c

  -- `JWTAuth`
  unfoldable pub jwt_auth : String → Middleware
  jwt_auth secret r c =
      if str_eq r.authorization ""
      then abort 401 "authorization header is required"
      else accept_bearer secret r.now (bearer_token r.authorization) c

-- `RequireRole`
unfoldable pub require_role : List String → Middleware
require_role roles r c = elim c.auth_user_role [
  | none ↦ abort 403 "access denied"
  | some role ↦ if has_role role roles then next c else abort 403 "insufficient permissions"
]

abbrev pub in_production : Request → Bool
in_production r = str_eq r.app_env "production"

-- `RequireInternalSecret`
unfoldable pub require_internal_secret : String → Middleware
require_internal_secret secret r c =
    if str_eq secret ""
    then (if in_production r then abort 500 "internal security configuration error" else next c)
    else (if str_eq r.internal_secret "" || not (str_eq r.internal_secret secret)
        then abort 403 "access denied: invalid or missing internal service secret"
        else next c)

abbrev pub err_neither : Passage
err_neither = abort 403 "access denied: internal secret or authorized token required"

-- The header is the secret, or there is none and the server runs for development.
abbrev pub knows_secret : String → Request → Bool
knows_secret secret r =
    (not (str_eq secret "") && str_eq r.internal_secret secret)
    || (str_eq secret "" && (not (in_production r) && not (str_eq r.internal_secret "")))

module _ (parse_with_claims : ParseWithClaims) where
  abbrev pub accept_role : List String → Option JwtClaims → Context → Passage
  accept_role roles none c = err_neither
  accept_role roles (some claims) c =
      if has_role claims.role roles
      then next (with_claims claims c)
      else abort 403 "insufficient permissions"

  abbrev pub accept_token : String → List String → ℕ → Option String → Context → Passage
  accept_token secret roles now none c = err_neither
  accept_token secret roles now (some token) c =
      accept_role roles (parse_with_claims now token (key_for secret)) c

  -- `RequireInternalSecretOrRoles`
  unfoldable pub require_internal_secret_or_roles : String → String → List String → Middleware
  require_internal_secret_or_roles internal secret roles r c =
      if knows_secret internal r
      then next c
      else (if str_eq r.authorization ""
          then err_neither
          else accept_token secret roles r.now (bearer_token r.authorization) c)
