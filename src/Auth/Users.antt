-- ===== src/Auth/Users.antt =====
-- What every request to the auth service keeps of the table of users: a property that the four
-- statements on the table keep.
use entra_api.Base.{
  ℕ, suc, String, Bool, Option, none, List, [], ◌∷◌, ◌++◌, ◌≡◌, refl, sym, subst, arith, true,
  false,
}
use entra_api.Base.Go.{Go, message, no_rows, fail_if, ◌>>=◌}
use entra_api.Base.Keeps.{
  Keeps, Keeps-pure, Keeps-gets, Keeps-or_none, Keeps-modify, Keeps-or_fail, Keeps-bind,
}
use entra_api.Accounts.{
  User, RefreshToken, PasswordResetToken, TokenPair, Accounts, query, email_taken, set_password,
  set_role, set_profile, get_user_by_id, get_user_row_by_email, insert_user, insert_unless_taken,
  create_user, set_users, find_user, with_profile, update_user_password, update_user_role,
  update_user_profile, err_duplicate,
}
use entra_api.Accounts.Crypto.{Crypto}
use entra_api.Accounts.Tokens.{
  create_refresh_token, get_refresh_token, delete_refresh_token, create_password_reset_token,
  get_password_reset_token, delete_password_reset_token,
}
use entra_api.Auth.Rules.{AuthRules}
use entra_api.Auth.Passwords.{reset_row, issue_reset_token}
use entra_api.Auth.{draw, remember_rotation, forget_rotation}

abbrev pub new_customer : ℕ → String → String → String → Option String → User
new_customer id email hash name phone = record {
  id = id;
  email = email;
  password_hash = hash;
  full_name = name;
  phone = phone;
  role = "customer";
  avatar_url = none;
  is_active = true;
}

-- A property of the next id and the table.
pub record UserRules (U : ℕ → List User → Type 0) : Type 0 where
  pub insert :
      (n : ℕ) (us : List User) (email hash name : String) (phone : Option String)
      → email_taken email us ≡ false
      → U n us
      → U (suc n) (us ++ new_customer n email hash name phone ∷ [])
  pub password :
      (n : ℕ) (us : List User) (id : ℕ) (hash : String) → U n us → U n (set_password id hash us)
  pub role : (n : ℕ) (us : List User) (id : ℕ) → U n us → U n (set_role id "organizer" us)
  pub profile :
      (n : ℕ) (us : List User) (id : ℕ) (name : String) (phone avatar : Option String)
      → U n us
      → U n (set_profile id name phone avatar us)

pub record On (U : ℕ → List User → Type 0) (s : Accounts) : Type 0 where
  pub holds : U s.next_id s.users

module _ {U : ℕ → List User → Type 0} where
  -- A run that leaves the table as it is.
  quiet :
      {A : Type 0} (m : Go Accounts A)
      → ((s : Accounts) → ((m s).1.users ≡ s.users) × ((m s).1.next_id ≡ s.next_id))
      → Keeps (On U) m
  quiet m same = record {
    run = λ s h. record {
      holds =
          subst (U (m s).1.next_id) (sym (same s).0)
            (subst (λ n. U n s.users) (sym (same s).1) h.holds);
    };
  }

  pub query-Keeps : Keeps (On U) query
  unfolding query
  query-Keeps = quiet query (λ s. ground arith)

  pub draw-Keeps : Keeps (On U) draw
  unfolding draw
  draw-Keeps = quiet draw (λ s. ground arith)

  pub by_id-Keeps : (id : ℕ) → Keeps (On U) (get_user_by_id id)
  unfolding get_user_by_id query
  by_id-Keeps id = quiet (get_user_by_id id) (λ s. ground arith)

  pub by_email-Keeps : (email : String) → Keeps (On U) (get_user_row_by_email email)
  unfolding get_user_row_by_email query
  by_email-Keeps email = quiet (get_user_row_by_email email) (λ s. ground arith)

  pub new_refresh-Keeps : (t : RefreshToken) → Keeps (On U) (create_refresh_token t)
  unfolding create_refresh_token query
  new_refresh-Keeps t = quiet (create_refresh_token t) (λ s. ground arith)

  pub get_refresh-Keeps : (token : String) → Keeps (On U) (get_refresh_token token)
  unfolding get_refresh_token query
  get_refresh-Keeps token = quiet (get_refresh_token token) (λ s. ground arith)

  pub drop_refresh-Keeps : (token : String) → Keeps (On U) (delete_refresh_token token)
  unfolding delete_refresh_token query
  drop_refresh-Keeps token = quiet (delete_refresh_token token) (λ s. ground arith)

  pub new_reset-Keeps : (t : PasswordResetToken) → Keeps (On U) (create_password_reset_token t)
  unfolding create_password_reset_token query
  new_reset-Keeps t = quiet (create_password_reset_token t) (λ s. ground arith)

  pub get_reset-Keeps : (token : String) → Keeps (On U) (get_password_reset_token token)
  unfolding get_password_reset_token query
  get_reset-Keeps token = quiet (get_password_reset_token token) (λ s. ground arith)

  pub drop_reset-Keeps : (token : String) → Keeps (On U) (delete_password_reset_token token)
  unfolding delete_password_reset_token query
  drop_reset-Keeps token = quiet (delete_password_reset_token token) (λ s. ground arith)

  pub remember-Keeps : (token : String) (t : TokenPair) → Keeps (On U) (remember_rotation token t)
  unfolding remember_rotation query
  remember-Keeps token t = quiet (remember_rotation token t) (λ s. ground arith)

  pub forget-Keeps : (token : String) → Keeps (On U) (forget_rotation token)
  unfolding forget_rotation query
  forget-Keeps token = quiet (forget_rotation token) (λ s. ground arith)

-- The statements that change the table.
module _ {U : ℕ → List User → Type 0} (rules : UserRules U) where
  inserted :
      (email hash name : String) (phone : Option String) (s : Accounts) (taken : Bool)
      → email_taken email s.users ≡ taken
      → On U s
      → On U
          ((◌>>=◌ (fail_if taken err_duplicate) (λ _. insert_user email hash name phone "customer"))
            s).1
  unfolding insert_user
  inserted email hash name phone s true e h = record { holds = h.holds }
  inserted email hash name phone s false e h = record {
    holds = rules.insert s.next_id s.users email hash name phone e h.holds;
  }

  pub create-Keeps :
      (email hash name : String) (phone : Option String)
      → Keeps (On U) (create_user email hash name phone "customer")
  unfolding create_user insert_unless_taken
  create-Keeps email hash name phone = Keeps-bind query-Keeps λ _.
      let rest : Keeps (On U) (insert_unless_taken email hash name phone "customer") = record {
        run = λ s h. inserted email hash name phone s (email_taken email s.users) refl h;
      } in
      rest

  pub password-Keeps : (id : ℕ) (hash : String) → Keeps (On U) (update_user_password id hash)
  unfolding update_user_password
  password-Keeps id hash = Keeps-bind query-Keeps λ _.
      Keeps-modify {f = set_users (set_password id hash)}
        λ s h. record { holds = rules.password s.next_id s.users id hash h.holds }

  pub role-Keeps : (id : ℕ) → Keeps (On U) (update_user_role id "organizer")
  unfolding update_user_role
  role-Keeps id = Keeps-bind query-Keeps λ _.
      Keeps-modify {f = set_users (set_role id "organizer")}
        λ s h. record { holds = rules.role s.next_id s.users id h.holds }

  pub profile-Keeps :
      (id : ℕ) (name : String) (phone avatar : Option String)
      → Keeps (On U) (update_user_profile id name phone avatar)
  unfolding update_user_profile
  profile-Keeps id name phone avatar = Keeps-bind query-Keeps λ _.
      Keeps-bind (Keeps-gets λ s. s.users) λ us.
        Keeps-bind (Keeps-or_none (find_user id us) no_rows) λ u.
          Keeps-bind
            (Keeps-modify {f = set_users (set_profile id name phone avatar)} λ s h. record {
              holds = rules.profile s.next_id s.users id name phone avatar h.holds;
            })
            λ _. Keeps-gets λ s. with_profile name phone avatar u

-- The rules for a property of the table of users.
pub On-AuthRules :
    {U : ℕ → List User → Type 0} (crypto : Crypto) → UserRules U → AuthRules crypto (On U)
unfolding issue_reset_token
On-AuthRules crypto rules = record {
  draw_keeps = draw-Keeps;
  by_id_keeps = by_id-Keeps;
  by_email_keeps = by_email-Keeps;
  new_refresh_keeps = new_refresh-Keeps;
  get_refresh_keeps = get_refresh-Keeps;
  drop_refresh_keeps = drop_refresh-Keeps;
  get_reset_keeps = get_reset-Keeps;
  drop_reset_keeps = drop_reset-Keeps;
  remember_keeps = remember-Keeps;
  forget_keeps = forget-Keeps;
  issue_keeps = λ u. Keeps-bind draw-Keeps λ n. Keeps-bind (Keeps-gets λ s. s.env.now) λ now.
      Keeps-bind
        (Keeps-or_fail (message "failed to create reset token")
          (new_reset-Keeps (reset_row crypto u now (crypto.new_uuid n))))
        λ _. Keeps-pure (crypto.new_uuid n);
  create_keeps = create-Keeps rules;
  password_keeps = password-Keeps rules;
  role_keeps = role-Keeps rules;
  profile_keeps = profile-Keeps rules;
}
