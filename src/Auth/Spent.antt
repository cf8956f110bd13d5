-- ===== src/Auth/Spent.antt =====
-- A reset token whose row is gone, and the requests to the auth service.
use entra_api.Base.{
  ℕ, ◌≤◌, String, ◌≡◌, ◌≢◌, refl, sym, subst, false, none, List, [], ◌∷◌, ◌++◌, arith, eq_iff,
  str_eq, Bool-cases, inl, inr,
}
use entra_api.Base.Go.{Go}
use entra_api.Base.Keeps.{Keeps}
use entra_api.Accounts.{
  User, PasswordResetToken, Accounts, query, get_user_by_id, get_user_row_by_email, insert_user,
  insert_unless_taken, create_user, update_user_password, update_user_role, update_user_profile,
}
use entra_api.Accounts.Crypto.{Crypto}
use entra_api.Accounts.Tokens.{
  find_reset, drop_reset, create_refresh_token, get_refresh_token, delete_refresh_token,
  create_password_reset_token, get_password_reset_token, delete_password_reset_token,
}
use entra_api.Auth.{draw, remember_rotation, forget_rotation}
use entra_api.Auth.Passwords.{hash_token, reset_row, issue_reset_token}
use entra_api.Auth.Rules.{AuthRules}

-- The row of the hash is gone, and a number of draws has been made.
pub record Gone (hash : String) (n : ℕ) (s : Accounts) : Type 0 where
  pub absent : find_reset hash s.reset_tokens ≡ none
  pub drawn : n ≤ s.drawn

-- A run that leaves the reset tokens as they are, and draws no number again.
quiet :
    {A : Type 0} {hash : String} {n : ℕ} (m : Go Accounts A)
    → ((s : Accounts) → ((m s).1.reset_tokens ≡ s.reset_tokens) × (s.drawn ≤ (m s).1.drawn))
    → Keeps (Gone hash n) m
quiet {A} {hash} {n} m same = record {
  run = λ s h. record {
    absent = subst (λ ts. find_reset hash ts ≡ none) (sym ((same s).0)) h.absent;
    drawn = omega (arith, h.drawn, (same s).1);
  };
}

find-new :
    (hash : String) (t : PasswordResetToken) (ts : List PasswordResetToken)
    → find_reset hash ts ≡ none
    → str_eq t.token hash ≡ false
    → find_reset hash (ts ++ t ∷ []) ≡ none
unfolding find_reset
find-new hash t [] h e = ground (arith, e)
find-new hash t (x ∷ ts) h e = ground (arith, h, find-new hash t ts)

find-drop :
    (hash other : String) (ts : List PasswordResetToken)
    → find_reset hash ts ≡ none
    → find_reset hash (drop_reset other ts) ≡ none
unfolding find_reset drop_reset
find-drop hash other [] h = refl
find-drop hash other (t ∷ ts) h = ground (arith, h, find-drop hash other ts)

module _ (crypto : Crypto) (hash : String) (n : ℕ)
    (fresh : (k : ℕ) → n ≤ k → hash_token crypto (crypto.new_uuid k) ≢ hash) where
  drop-Gone : (token : String) → Keeps (Gone hash n) (delete_password_reset_token token)
  unfolding delete_password_reset_token query
  drop-Gone token = record {
    run = λ s h. record {
      absent = ground (arith, h.absent, find-drop hash token s.reset_tokens h.absent);
      drawn = ground (arith, h.drawn);
    };
  }

  issue-Gone : (u : User) → Keeps (Gone hash n) (issue_reset_token crypto u)
  unfolding issue_reset_token draw create_password_reset_token query
  issue-Gone u = record {
    run = λ s h.
        let other : str_eq (hash_token crypto (crypto.new_uuid s.drawn)) hash ≡ false =
          differs (hash_token crypto (crypto.new_uuid s.drawn)) (fresh s.drawn h.drawn) in
        record {
          absent = ground (
            arith,
            h.absent,
            find-new hash (reset_row crypto u s.env.now (crypto.new_uuid s.drawn)) s.reset_tokens
                h.absent other,
          );
          drawn = ground (arith, h.drawn);
        };
  }
    where
      differs : (x : String) → x ≢ hash → str_eq x hash ≡ false
      differs x no_path = elim (Bool-cases (str_eq x hash)) [
        | inl same ↦ absurd (no_path (ground (arith, same, eq_iff x hash)))
        | inr apart ↦ apart
      ]

  pub Gone-AuthRules : AuthRules crypto (Gone hash n)
  unfolding draw get_user_by_id get_user_row_by_email create_refresh_token get_refresh_token
      delete_refresh_token get_password_reset_token remember_rotation forget_rotation create_user
      insert_unless_taken insert_user update_user_password update_user_role update_user_profile
      query
  Gone-AuthRules = record {
    draw_keeps = quiet draw (λ s. (refl, omega arith));
    by_id_keeps = λ id. quiet (get_user_by_id id) (λ s. ground arith);
    by_email_keeps = λ email. quiet (get_user_row_by_email email) (λ s. ground arith);
    new_refresh_keeps = λ t. quiet (create_refresh_token t) (λ s. ground arith);
    get_refresh_keeps = λ token. quiet (get_refresh_token token) (λ s. ground arith);
    drop_refresh_keeps = λ token. quiet (delete_refresh_token token) (λ s. ground arith);
    get_reset_keeps = λ token. quiet (get_password_reset_token token) (λ s. ground arith);
    drop_reset_keeps = drop-Gone;
    remember_keeps = λ token t. quiet (remember_rotation token t) (λ s. ground arith);
    forget_keeps = λ token. quiet (forget_rotation token) (λ s. ground arith);
    issue_keeps = issue-Gone;
    create_keeps = λ email hash name phone.
        quiet (create_user email hash name phone "customer") (λ s. ground arith);
    password_keeps = λ id hash. quiet (update_user_password id hash) (λ s. ground arith);
    role_keeps = λ id. quiet (update_user_role id "organizer") (λ s. ground arith);
    profile_keeps = λ id name phone avatar.
        quiet (update_user_profile id name phone avatar) (λ s. ground arith);
  }
