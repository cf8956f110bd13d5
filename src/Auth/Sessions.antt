-- ===== src/Auth/Sessions.antt =====
-- Registration followed by login.
use entra_api.Base.{
  String, ◌≡◌, sym, subst, true, false, none, some, List, [], ◌∷◌, ◌++◌, arith, eq_iff,
}
use entra_api.Base.Go.{Go, ok, err, pure, ◌>>=◌}
use entra_api.Base.External.{Uuids}
use entra_api.Accounts.{
  User, TokenPair, Accounts, query, find_user_by_email, get_user_row_by_email, insert_user,
  insert_unless_taken, create_user,
}
use entra_api.Accounts.Calm.{with_script, calm}
use entra_api.Accounts.Crypto.{Crypto}
use entra_api.Accounts.Tokens.{create_refresh_token}
use entra_api.Auth.{
  RegisterRequest, JwtConfig, err_invalid_credentials, draw, hash_password, generate_token_pair,
  register, login,
}

module _ (uuids : Uuids) (crypto : Crypto) (cfg : JwtConfig) where
  -- What a registration that succeeds has done.
  record Registered (req : RegisterRequest) (us : List User) (s' : Accounts) (u : User)
      : Type 0 where
    users : s'.users ≡ us ++ u ∷ []
    quiet : s'.env.script ≡ []
    fresh : find_user_by_email req.email us ≡ none
    email : u.email ≡ req.email
    active : u.is_active ≡ true
    role : u.role ≡ "customer"
    password : crypto.compare_hash_and_password u.password_hash req.password ≡ true

  registered :
      (req : RegisterRequest) (u : User) (t : TokenPair) (s : Accounts)
      → (register uuids crypto cfg req (with_script [] s)).0 ≡ ok (u, t)
      → Registered req s.users (register uuids crypto cfg req (with_script [] s)).1 u
  unfolding register get_user_row_by_email query hash_password draw create_user insert_unless_taken
      insert_user generate_token_pair create_refresh_token
  registered req u t s h =
      ground (arith, crypto.compare-generate req.password s.drawn u.password_hash)

  finds_new :
      (email : String) (u : User) (us : List User)
      → find_user_by_email email us ≡ none
      → u.email ≡ email
      → u.is_active ≡ true
      → find_user_by_email email (us ++ u ∷ []) ≡ some u
  unfolding find_user_by_email
  finds_new email u [] h e a = ground (arith, eq_iff u.email email)
  finds_new email u (v ∷ us) h e a = ground (arith, finds_new email u us)

  -- A session for the user: `login` and `register` end with it.
  abbrev pub session_for : User → String → String → Go Accounts (User × TokenPair)
  session_for u agent ip = do
    tokens ← generate_token_pair uuids crypto cfg u agent ip
    pure (u, tokens)

  refused :
      (email password agent ip : String) (u : User) (s : Accounts)
      → find_user_by_email email s.users ≡ some u
      → crypto.compare_hash_and_password u.password_hash password ≡ false
      → s.env.script ≡ []
      → (login uuids crypto cfg email password agent ip s).0 ≡ err err_invalid_credentials
  unfolding login get_user_row_by_email query
  refused email password agent ip u s found wrong quiet =
      calm
        (λ s.
          find_user_by_email email s.users ≡ some u
          → (login uuids crypto cfg email password agent ip s).0 ≡ err err_invalid_credentials)
        s quiet (λ e. ground arith) found

  pub logs_in :
      (email password agent ip : String) (u : User) (s : Accounts)
      → find_user_by_email email s.users ≡ some u
      → crypto.compare_hash_and_password u.password_hash password ≡ true
      → s.env.script ≡ []
      → login uuids crypto cfg email password agent ip s ≡ session_for u agent ip s
  unfolding login get_user_row_by_email query
  logs_in email password agent ip u s found right quiet =
      calm
        (λ s.
          find_user_by_email email s.users ≡ some u
          → login uuids crypto cfg email password agent ip s ≡ session_for u agent ip s)
        s quiet (λ e. ground arith) found

  -- Where no call fails, a registration that succeeds has made a customer's account, and a login with
  -- its address and its password is let through to the tokens of that same account, while a login
  -- with that address and a password that does not match is refused as invalid credentials.
  pub register-login :
      (req : RegisterRequest) (u : User) (t : TokenPair) (wrong agent ip : String) (s : Accounts)
      → s.env.script ≡ []
      → (register uuids crypto cfg req s).0 ≡ ok (u, t)
      → crypto.compare_hash_and_password u.password_hash wrong ≡ false
      → (u.role ≡ "customer")
        × (login uuids crypto cfg req.email req.password agent ip
              (register uuids crypto cfg req s).1
            ≡ session_for u agent ip (register uuids crypto cfg req s).1)
        × ((login uuids crypto cfg req.email wrong agent ip (register uuids crypto cfg req s).1).0
            ≡ err err_invalid_credentials)
  register-login req u t wrong agent ip s quiet h mismatch =
      let done =
        calm
          (λ s.
            (register uuids crypto cfg req s).0 ≡ ok (u, t)
            → Registered req s.users (register uuids crypto cfg req s).1 u)
          s quiet (registered req u t s) h in
      let found =
        subst (λ us. find_user_by_email req.email us ≡ some u) (sym done.users)
          (finds_new req.email u s.users done.fresh done.email done.active) in
      (
        done.role,
        logs_in req.email req.password agent ip u _ found done.password done.quiet,
        refused req.email wrong agent ip u _ found mismatch done.quiet,
      )
