-- ===== src/Auth/Recovery.antt =====
-- Forgotten passwords: a reset token leads to the account that it was made for, and serves once.
use entra_api.Base.{
  ℕ, ◌≤◌, ◌≢◌, if◌then◌else◌, suc, String, ◌≡◌, refl, sym, subst, true, false, none, some, List, [],
  ◌∷◌, ◌++◌, arith, eq_refl, inl, inr, Option-cases, Bool-cases, ltb,
}
use entra_api.Base.Go.{Env, Error, call, message, ok, err}
use entra_api.Base.External.{Uuids}
use entra_api.Accounts.{
  User, PasswordResetToken, Accounts, query, find_user_by_email, set_password,
  get_user_row_by_email, update_user_password,
}
use entra_api.Accounts.Calm.{with_script, calm}
use entra_api.Accounts.Crypto.{Crypto}
use entra_api.Accounts.Tokens.{
  reset_taken, find_reset, drop_reset, create_password_reset_token, get_password_reset_token,
  delete_password_reset_token,
}
use entra_api.Auth.Spent.{Gone, Gone-AuthRules}
use entra_api.Auth.Requests.{AuthRequest, serve_requests, serve_requests_keep}
use entra_api.Auth.{JwtConfig, err_reset_token, draw, hash_password}
use entra_api.Auth.Passwords.{
  hash_token, reset_row, issue_reset_token, forgot_password, reset_password,
}

drops :
    (token : String) (ts : List PasswordResetToken) → find_reset token (drop_reset token ts) ≡ none
unfolding find_reset drop_reset
drops token [] = refl
drops token (t ∷ ts) = ground (arith, drops token ts)

pub finds :
    (t : PasswordResetToken) (ts : List PasswordResetToken)
    → reset_taken t.token ts ≡ false
    → find_reset t.token (ts ++ t ∷ []) ≡ some t
unfolding find_reset reset_taken
finds t [] h = ground (arith, eq_refl t.token)
finds t (x ∷ ts) h = ground (arith, finds t ts)

-- The state at another time, with other outcomes of the calls to come.
abbrev pub at_env : Env → Accounts → Accounts
at_env later s = record s { env = later }

-- Why a token that is not in the table is refused.
abbrev pub refusal : Accounts → Error
refusal s = if (call s.env).0 then message "failed to get reset token" else err_reset_token

module _ (uuids : Uuids) (crypto : Crypto) where
  -- The state that a reset leaves.
  abbrev pub after_reset : String → PasswordResetToken → String → Accounts → Accounts
  after_reset token row hash s = record (with_script [] s) {
    drawn = suc s.drawn;
    users = set_password row.user_id hash s.users;
    reset_tokens = drop_reset (hash_token crypto token) s.reset_tokens;
  }

  pub resets :
      (token password hash : String) (row : PasswordResetToken) (s : Accounts)
      → find_reset (hash_token crypto token) s.reset_tokens ≡ some row
      → ltb row.expires_at s.env.now ≡ false
      → crypto.generate_from_password password s.drawn ≡ some hash
      → reset_password uuids crypto token password (with_script [] s)
        ≡ (ok tt, after_reset token row hash s)
  unfolding reset_password get_password_reset_token query hash_password draw update_user_password
      delete_password_reset_token
  resets token password hash row s e f g = ground arith

  unknown :
      (token password : String) (s : Accounts)
      → find_reset (hash_token crypto token) s.reset_tokens ≡ none
      → reset_password uuids crypto token password (with_script [] s)
        ≡ (err err_reset_token, with_script [] s)
  unfolding reset_password get_password_reset_token query
  unknown token password s e = ground arith

  late :
      (token password : String) (row : PasswordResetToken) (s : Accounts)
      → find_reset (hash_token crypto token) s.reset_tokens ≡ some row
      → ltb row.expires_at s.env.now ≡ true
      → reset_password uuids crypto token password (with_script [] s)
        ≡ (err err_reset_token, with_script [] s)
  unfolding reset_password get_password_reset_token query
  late token password row s e f = ground arith

  -- The state that a request for a reset token leaves.
  abbrev pub issued : User → Accounts → Accounts
  issued u s = record (with_script [] s) {
    drawn = suc s.drawn;
    reset_tokens = s.reset_tokens ++ reset_row crypto u s.env.now (crypto.new_uuid s.drawn) ∷ [];
  }

  pub collides :
      (email : String) (u : User) (s : Accounts)
      → find_user_by_email email s.users ≡ some u
      → reset_taken (hash_token crypto (crypto.new_uuid s.drawn)) s.reset_tokens ≡ true
      → (forgot_password crypto email (with_script [] s)).0
        ≡ err (message "failed to create reset token")
  unfolding forgot_password get_user_row_by_email query issue_reset_token draw
      create_password_reset_token
  collides email u s e f = ground arith

  pub issues :
      (email : String) (u : User) (s : Accounts)
      → find_user_by_email email s.users ≡ some u
      → reset_taken (hash_token crypto (crypto.new_uuid s.drawn)) s.reset_tokens ≡ false
      → forgot_password crypto email (with_script [] s) ≡ (ok (crypto.new_uuid s.drawn), issued u s)
  unfolding forgot_password get_user_row_by_email query issue_reset_token draw
      create_password_reset_token
  issues email u s e f = ground arith

  unhashed :
      (token password : String) (row : PasswordResetToken) (s : Accounts)
      → find_reset (hash_token crypto token) s.reset_tokens ≡ some row
      → ltb row.expires_at s.env.now ≡ false
      → crypto.generate_from_password password s.drawn ≡ none
      → (reset_password uuids crypto token password (with_script [] s)).0
        ≡ err (message "failed to hash password")
  unfolding reset_password get_password_reset_token query hash_password draw
  unhashed token password row s e f g = ground arith

  -- A reset that has set a password has removed the token.
  removed :
      (token password : String) (s : Accounts)
      → (reset_password uuids crypto token password (with_script [] s)).0 ≡ ok tt
      → Gone
          (hash_token crypto token)
          s.drawn
          (reset_password uuids crypto token password (with_script [] s)).1
  removed token password s h =
      elim (Option-cases (find_reset (hash_token crypto token) s.reset_tokens)) [
        | inl e ↦ absurd (ground (arith, h, unknown token password s e))
        | inr (row, e) ↦ elim (Bool-cases (ltb row.expires_at s.env.now)) [
          | inl f ↦ absurd (ground (arith, h, late token password row s e f))
          | inr f ↦ elim (Option-cases (crypto.generate_from_password password s.drawn)) [
            | inl g ↦ absurd (ground (arith, h, unhashed token password row s e f g))
            | inr (hash, g) ↦
                subst (λ r. Gone (hash_token crypto token) s.drawn (r.1))
                  (sym (resets token password hash row s e f g))
                  (record {
                    absent = drops (hash_token crypto token) s.reset_tokens;
                    drawn = omega arith;
                  })
          ]
        ]
      ]

  refused :
      (token password : String) (s : Accounts)
      → find_reset (hash_token crypto token) s.reset_tokens ≡ none
      → reset_password uuids crypto token password s ≡ (err (refusal s), (query s).1)
  unfolding reset_password get_password_reset_token query
  refused token password s h = ground (arith, h)

module _ (uuids : Uuids) (crypto : Crypto) (cfg : JwtConfig) where
  -- The state that a history of requests leaves after a reset.
  abbrev pub afterwards : String → String → List AuthRequest → Env → Accounts → Accounts
  afterwards token password rs later s =
      serve_requests uuids crypto cfg rs
        (at_env later (reset_password uuids crypto token password s).1)

  -- Where no call fails until a reset token has set a password, the token is refused from then on:
  -- after every history of requests to the auth service, at every later state of the clock and
  -- whichever calls fail in that history, it sets no password and has no effect but the read, and is
  -- called invalid if the read does not fail. The hash of no later draw of a token is the one of this
  -- token.
  pub resets_once :
      (token password password' : String) (rs : List AuthRequest) (later : Env) (s : Accounts)
      → s.env.script ≡ []
      → ((k : ℕ) → s.drawn ≤ k → hash_token crypto (crypto.new_uuid k) ≢ hash_token crypto token)
      → (reset_password uuids crypto token password s).0 ≡ ok tt
      → reset_password uuids crypto token password' (afterwards token password rs later s) ≡ (
        err (refusal (afterwards token password rs later s)),
        (query (afterwards token password rs later s)).1,
      )
  resets_once token password password' rs later s quiet fresh h =
      let gone =
        calm
          (λ s.
            (reset_password uuids crypto token password s).0 ≡ ok tt
            → Gone (hash_token crypto token) s.drawn
                (reset_password uuids crypto token password s).1)
          s quiet (removed uuids crypto token password s) h in
      refused uuids crypto token password' _
        (serve_requests_keep uuids crypto cfg
          (Gone-AuthRules crypto (hash_token crypto token) s.drawn fresh) rs
          (at_env later (reset_password uuids crypto token password s).1)
          (record { absent = gone.absent; drawn = gone.drawn })).absent
