-- ===== src/Middleware/Doors.antt =====
-- Which requests the guards let through.
use entra_api.Base.{String, ◌≡◌, Option, none, some, List, [], ◌∷◌, arith, if◌then◌else◌}
use entra_api.Middleware.{
  ParseWithClaims, Request, Context, Passage, next, abort, chain, jwt_auth, require_role,
  knows_secret, require_internal_secret_or_roles,
}

-- The context of a request that is let through.
unfoldable pub admitted : Passage → Option Context
admitted (next c) = some c
admitted (abort status text) = none

module _ (parse_with_claims : ParseWithClaims) where
  -- Without the internal secret, RequireInternalSecretOrRoles lets through the requests that JWTAuth
  -- and RequireRole one after the other let through, with the same user and role for the handlers.
  -- With the secret, or with any secret in the header where the server has none and is not in
  -- production, it lets the request through as it is.
  pub secret_or_roles :
      (internal secret : String) (roles : List String) (r : Request) (c : Context)
      → admitted (require_internal_secret_or_roles parse_with_claims internal secret roles r c) ≡ (
          if knows_secret internal r
          then some c
          else admitted (chain (jwt_auth parse_with_claims secret ∷ require_role roles ∷ []) r c))
  unfolding admitted require_internal_secret_or_roles chain jwt_auth require_role
  secret_or_roles internal secret roles r c = ground arith
