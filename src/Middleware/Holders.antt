-- ===== src/Middleware/Holders.antt =====
-- The tokens that the auth service signs, at the doors of the other services.
use Prim.Native.String.compare
use text.Mathlib.Text.{is_eq}
use entra_api.Base.{
  ℕ, ◌*◌, ◌<◌, String, ◌≡◌, refl, ◌⊎◌, inl, inr, false, ◌&&◌, some, List, [], ◌∷◌, All, arith,
  str_eq, if◌then◌else◌, Bool-cases, subst, ap,
}
use entra_api.Base.Go.{ok}
use entra_api.Base.External.{Uuids}
use entra_api.Platform.{second}
use entra_api.Accounts.{User, TokenPair, Accounts, query, find_user_by_email, get_user_row_by_email}
use entra_api.Accounts.Crypto.{Claims, Crypto}
use entra_api.Accounts.Tokens.{create_refresh_token}
use entra_api.Auth.{JwtConfig, claims_of, draw, generate_token_pair, login}
use entra_api.Auth.Roles.{HasRole, no_new_admins}
use entra_api.Auth.Requests.{AuthRequest, serve_requests}
use entra_api.Middleware.{
  ParseWithClaims, Request, Context, Passage, next, abort, chain, bearer_token, split_space,
  equal_fold, has_role, jwt_auth, require_role, with_claims, key_for,
}
use entra_api.Middleware.Routes.{
  TicketRoute, admin_list_withdrawals, admin_update_withdrawal_status, get_admin_platform_stats,
  ticket_guards,
}

-- The header that a client sends: "Bearer " and the token.
abbrev pub bearer_header : String → String
bearer_header token = String.◌∷◌ "B" (
    String.◌∷◌ "e"
      (String.◌∷◌ "a" (String.◌∷◌ "r" (String.◌∷◌ "e" (String.◌∷◌ "r" (String.◌∷◌ " " token))))))

bearer_token-header : (token : String) → bearer_token (bearer_header token) ≡ some token
unfolding bearer_token split_space equal_fold
bearer_token-header token = refl

header-NotEmpty : (token : String) → str_eq (bearer_header token) "" ≡ false
header-NotEmpty token = ap is_eq (compare.cons-nil _ _)

-- golang-jwt accepts a token that was signed with the same secret until it expires, and gives the
-- claims of it.
abbrev pub ReadsSigned : Crypto → ParseWithClaims → Type 0
ReadsSigned crypto parse =
    (claims : Claims) (secret token : String) (now : ℕ)
    → crypto.signed_string claims secret ≡ some token
    → now < claims.exp * second
    → parse now token (key_for secret)
      ≡ some (record { user_id = claims.user_id; role = claims.role })

module _ (uuids : Uuids) (crypto : Crypto) (cfg : JwtConfig) where
  -- What a session's access token was made of.
  record Signed (u : User) (t : TokenPair) : Type 0 where
    now : ℕ
    signed :
        crypto.signed_string (claims_of uuids crypto cfg u now) cfg.secret ≡ some t.access_token
    expires : t.expires_at ≡ (claims_of uuids crypto cfg u now).exp

  tokens-Signed :
      (u : User) (t : TokenPair) (agent ip : String) (s : Accounts)
      → (generate_token_pair uuids crypto cfg u agent ip s).0 ≡ ok t
      → Signed u t
  unfolding generate_token_pair draw create_refresh_token query
  tokens-Signed u t agent ip s h = record {
    now = s.env.now;
    signed = ground arith;
    expires = ground arith;
  }

  -- A login that returned has found the account, and made the tokens for it.
  record LoggedIn (email : String) (us : List User) (u : User) (t : TokenPair) : Type 0 where
    found : find_user_by_email email us ≡ some u
    tokens : Signed u t

  login-LoggedIn :
      (email password agent ip : String) (u : User) (t : TokenPair) (s : Accounts)
      → (login uuids crypto cfg email password agent ip s).0 ≡ ok (u, t)
      → LoggedIn email s.users u t
  unfolding login get_user_row_by_email query
  login-LoggedIn email password agent ip u t s h = record {
    found = ground arith;
    tokens = tokens-Signed u t agent ip ((query s).1) (ground arith);
  }

  -- The account of the claims.
  abbrev pub identity : User → Context → Context
  identity u c = with_claims (record { user_id = uuids.to_string u.id; role = u.role }) c

  abbrev pub door : User → List String → Context → Passage
  door u roles c =
      if has_role u.role roles then next (identity u c) else abort 403 "insufficient permissions"

-- A request with the token in its header.
abbrev pub with_token : String → Request → Request
with_token token r = record r { authorization = bearer_header token }

find-All :
    (P : User → Type 0) (email : String) (u : User) (us : List User)
    → All P us
    → find_user_by_email email us ≡ some u
    → P u
unfolding find_user_by_email
find-All P email u [] h e = absurd (ground (arith, e))
find-All P email u (v ∷ us) h e = elim (Bool-cases (str_eq v.email email && v.is_active)) [
  | inl hit ↦ subst P (ground (arith, hit, e)) (h.0)
  | inr miss ↦ find-All P email u us (h.1) (ground (arith, miss, e))
]

-- Neither a customer nor an organizer has the role of an administrator.
has_role-customer : (role : String) → role ≡ "customer" → has_role role ("admin" ∷ []) ≡ false
unfolding has_role
has_role-customer role e = rw e refl

has_role-organizer : (role : String) → role ≡ "organizer" → has_role role ("admin" ∷ []) ≡ false
unfolding has_role
has_role-organizer role e = rw e refl

module _ (uuids : Uuids) (crypto : Crypto) (cfg : JwtConfig) (parse : ParseWithClaims)
    (reads : ReadsSigned crypto parse) where
  passes :
      (roles : List String) (u : User) (t : TokenPair) (r : Request) (c : Context)
      → Signed uuids crypto cfg u t
      → r.now < t.expires_at * second
      → chain (jwt_auth parse cfg.secret ∷ require_role roles ∷ []) (with_token t.access_token r) c
        ≡ door uuids crypto cfg u roles c
  unfolding chain jwt_auth require_role
  passes roles u t r c made early =
      let claims = claims_of uuids crypto cfg u made.now in
      let accepted =
        reads claims cfg.secret t.access_token r.now made.signed
          (subst (λ e. r.now < e * second) made.expires early) in
      ground (arith, header-NotEmpty t.access_token, bearer_token-header t.access_token, accepted)

  -- The access token of a login, at any time before it expires, passes JWTAuth and then RequireRole
  -- exactly if the account has one of the roles: the handler sees the account's id and role, and
  -- otherwise the request is refused as forbidden.
  pub login_opens_doors :
      (email password agent ip : String) (u : User) (t : TokenPair) (s : Accounts)
      (roles : List String) (r : Request) (c : Context)
      → (login uuids crypto cfg email password agent ip s).0 ≡ ok (u, t)
      → r.now < t.expires_at * second
      → chain (jwt_auth parse cfg.secret ∷ require_role roles ∷ []) (with_token t.access_token r) c
        ≡ door uuids crypto cfg u roles c
  login_opens_doors email password agent ip u t s roles r c h early =
      passes roles u t r c (login-LoggedIn uuids crypto cfg email password agent ip u t s h).tokens
        early

  -- The guards of a route of the ticket service refuse the request as forbidden.
  abbrev pub Refused : String → TicketRoute → Request → Context → Type 0
  Refused internal route r c =
      chain (ticket_guards parse internal cfg.secret route) r c
      ≡ abort 403 "insufficient permissions"

  shut :
      (u : User) (t : TokenPair) (r : Request) (c : Context)
      → Signed uuids crypto cfg u t
      → r.now < t.expires_at * second
      → has_role u.role ("admin" ∷ []) ≡ false
      → chain
          (jwt_auth parse cfg.secret ∷ require_role ("admin" ∷ []) ∷ [])
          (with_token t.access_token r)
          c
        ≡ abort 403 "insufficient permissions"
  shut u t r c made early barred = ground (arith, passes ("admin" ∷ []) u t r c made early)

  -- Where every account is a customer, an organizer, or one of those that may have another role,
  -- after any history of requests to the auth service, whichever calls fail, the access token of a
  -- login never opens the three routes of administrators in the ticket service as long as it is
  -- valid, unless the account is one of those others.
  pub no_admin_session :
      (A : ℕ → String → Type 0) (internal email password agent ip : String) (u : User)
      (t : TokenPair) (rs : List AuthRequest) (s : Accounts) (r : Request) (c : Context)
      → All (HasRole A) s.users
      → (login uuids crypto cfg email password agent ip (serve_requests uuids crypto cfg rs s)).0
        ≡ ok (u, t)
      → r.now < t.expires_at * second
      → A u.id u.role
        ⊎ (Refused internal admin_list_withdrawals (with_token t.access_token r) c
            × Refused internal admin_update_withdrawal_status (with_token t.access_token r) c
            × Refused internal get_admin_platform_stats (with_token t.access_token r) c)
  unfolding ticket_guards
  no_admin_session A internal email password agent ip u t rs s r c roles h early =
      let done = login-LoggedIn uuids crypto cfg email password agent ip u t _ h in
      elim (find-All (HasRole A) email u (serve_requests uuids crypto cfg rs s).users
        (no_new_admins A uuids crypto cfg rs s roles) done.found) [
          | inl customer ↦
              let closed = shut u t r c done.tokens early (has_role-customer u.role customer) in
              inr (closed, closed, closed)
          | inr (inl organizer) ↦
              let closed = shut u t r c done.tokens early (has_role-organizer u.role organizer) in
              inr (closed, closed, closed)
          | inr (inr other) ↦ inl other
        ]
