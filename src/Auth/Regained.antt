-- ===== src/Auth/Regained.antt =====
-- A forgotten password, from the request for a token to the login with the new password.
use entra_api.Base.{
  ℕ, suc, ◌+◌, ◌≤◌, String, ◌≡◌, refl, sym, ap, subst, false, some, List, [], ◌∷◌, arith, str_eq,
  All, ◌&&◌, inl, inr, Bool-cases,
}
use entra_api.Base.Go.{ok}
use entra_api.Base.External.{Uuids}
use entra_api.Accounts.{User, Accounts, find_user_by_email, set_password}
use entra_api.Accounts.Calm.{with_script, calm}
use entra_api.Accounts.Crypto.{Crypto}
use entra_api.Accounts.Tokens.{reset_taken}
use entra_api.Auth.{JwtConfig, reset_lifetime, login}
use entra_api.Auth.Passwords.{hash_token, reset_row, forgot_password, reset_password}
use entra_api.Auth.Rotation.{at_time}
use entra_api.Auth.Distinct.{Apart, Distinct}
use entra_api.Auth.Sessions.{session_for, logs_in}
use entra_api.Auth.Recovery.{issued, after_reset, finds, collides, issues, resets}

Apart-found :
    (email : String) (x u : User) (us : List User)
    → All (Apart x) us
    → find_user_by_email email us ≡ some u
    → Apart x u
unfolding find_user_by_email
Apart-found email x u [] h e = absurd (ground (arith, e))
Apart-found email x u (v ∷ us) h e = elim (Bool-cases (str_eq v.email email && v.is_active)) [
  | inl hit ↦ let same : v ≡ u = ground (arith, hit, e) in subst (Apart x) same h.0
  | inr miss ↦ Apart-found email x u us h.1 (ground (arith, miss, e))
]

-- The account of an address after its password was set.
finds_changed :
    (email hash : String) (n : ℕ) (u : User) (us : List User)
    → Distinct n us
    → find_user_by_email email us ≡ some u
    → find_user_by_email email (set_password u.id hash us)
      ≡ some (record u { password_hash = hash })
unfolding find_user_by_email set_password
finds_changed email hash n u [] d e = absurd (ground (arith, e))
finds_changed email hash n u (x ∷ us) d e =
    elim (Bool-cases (str_eq x.email email && x.is_active)) [
      | inl hit ↦
          let same : x ≡ u = ground (arith, hit, e) in
          subst
            (λ y.
              find_user_by_email email (set_password y.id hash (x ∷ us))
              ≡ some (record y { password_hash = hash }))
            same (ground (arith, hit))
      | inr miss ↦
          let later : find_user_by_email email us ≡ some u = ground (arith, miss, e) in
          ground (
            arith,
            miss,
            finds_changed email hash n u us d.2 later,
            (Apart-found email x u us d.1 later).0,
          )
    ]

module _ (uuids : Uuids) (crypto : Crypto) (cfg : JwtConfig) where
  -- A token sets the password of the account, which then logs in.
  Recovers : String → String → String → String → String → User → ℕ → String → Accounts → Type 0
  Recovers email password hash agent ip u n token s =
      let s' = reset_password uuids crypto token password (at_time n s) in
      (s'.0 ≡ ok tt)
      × (login uuids crypto cfg email password agent ip s'.1
          ≡ session_for uuids crypto cfg (record u { password_hash = hash }) agent ip s'.1)

  recovers :
      (email password hash agent ip : String) (u : User) (n : ℕ) (s : Accounts)
      → Distinct s.next_id s.users
      → find_user_by_email email s.users ≡ some u
      → reset_taken (hash_token crypto (crypto.new_uuid s.drawn)) s.reset_tokens ≡ false
      → n ≤ s.env.now + reset_lifetime
      → crypto.generate_from_password password (suc s.drawn) ≡ some hash
      → Recovers email password hash agent ip u n
          (crypto.new_uuid s.drawn)
          (issued uuids crypto u s)
  unfolding Recovers
  recovers email password hash agent ip u n s d found free soon hashed =
      let row = reset_row crypto u s.env.now (crypto.new_uuid s.drawn) in
      let s1 = at_time n (issued uuids crypto u s) in
      let s2 = after_reset uuids crypto (crypto.new_uuid s.drawn) row hash s1 in
      let run =
        resets uuids crypto (crypto.new_uuid s.drawn) password hash row s1
          (finds row s.reset_tokens free) (ground (arith, soon)) hashed in
      subst
        (λ r.
          (r.0 ≡ ok tt)
          × (login uuids crypto cfg email password agent ip r.1
              ≡ session_for uuids crypto cfg (record u { password_hash = hash }) agent ip r.1))
        (sym run)
        (
          refl,
          logs_in uuids crypto cfg email password agent ip (record u { password_hash = hash }) s2
              (finds_changed email hash s.next_id u s.users d found)
              (crypto.compare-generate password (suc s.drawn) hash hashed) refl,
        )

  issued_or_not :
      (email token password hash agent ip : String) (u : User) (n : ℕ) (s : Accounts)
      → Distinct s.next_id s.users
      → find_user_by_email email s.users ≡ some u
      → n ≤ s.env.now + reset_lifetime
      → crypto.generate_from_password password (suc s.drawn) ≡ some hash
      → (forgot_password crypto email (with_script [] s)).0 ≡ ok token
      → Recovers email password hash agent ip u n token
          (forgot_password crypto email (with_script [] s)).1
  issued_or_not email token password hash agent ip u n s d found soon hashed given =
      elim (Bool-cases (reset_taken (hash_token crypto (crypto.new_uuid s.drawn)) s.reset_tokens)) [
        | inl e ↦ absurd (ground (arith, given, collides uuids crypto email u s found e))
        | inr e ↦
            let run = issues uuids crypto email u s found e in
            let same : crypto.new_uuid s.drawn ≡ token = ground (arith, given, run) in
            subst (λ s'. Recovers email password hash agent ip u n token s')
              (sym (ap (λ r. r.1) run))
              (subst (λ t. Recovers email password hash agent ip u n t (issued uuids crypto u s))
                same (recovers email password hash agent ip u n s d found e soon hashed))
      ]

  -- Where no call fails and no two accounts share an id or an address: a token that ForgotPassword
  -- gave out for an account sets a new password in the thirty minutes that follow, and a login with
  -- the address and the new password is then let through to the tokens of that account.
  pub forgot-reset-login :
      (email token password hash agent ip : String) (u : User) (n : ℕ) (s : Accounts)
      → s.env.script ≡ []
      → Distinct s.next_id s.users
      → find_user_by_email email s.users ≡ some u
      → (forgot_password crypto email s).0 ≡ ok token
      → n ≤ s.env.now + reset_lifetime
      → crypto.generate_from_password password (suc s.drawn) ≡ some hash
      → let s' =
          reset_password uuids crypto token password
            (at_time n (forgot_password crypto email s).1) in
        (s'.0 ≡ ok tt)
        × (login uuids crypto cfg email password agent ip s'.1
            ≡ session_for uuids crypto cfg (record u { password_hash = hash }) agent ip s'.1)
  unfolding Recovers
  forgot-reset-login email token password hash agent ip u n s quiet d found given soon hashed =
      calm
        (λ s.
          Distinct s.next_id s.users
          → find_user_by_email email s.users ≡ some u
          → n ≤ s.env.now + reset_lifetime
          → crypto.generate_from_password password (suc s.drawn) ≡ some hash
          → (forgot_password crypto email s).0 ≡ ok token
          → Recovers email password hash agent ip u n token (forgot_password crypto email s).1)
        s quiet (issued_or_not email token password hash agent ip u n s) d found soon hashed given
