-- ===== src/Auth/Rotation.antt =====
-- The rotation of refresh tokens.
use entra_api.Base.{
  Bool-cases, if◌then◌else◌, ltb, ℕ, suc, ◌+◌, ◌<◌, ◌≤◌, String, ◌≡◌, ◌≢◌, none, some, Option-cases,
  inl, inr, refl, sym, ap, subst, ◌∙◌, eq_refl, List, [], ◌∷◌, ◌++◌, arith, eq_iff,
}
use entra_api.Base.Go.{Result, ok, err, pure, ◌>>=◌, ◌>>◌}
use entra_api.Platform.{put}
use entra_api.Base.External.{Uuids}
use entra_api.Accounts.{
  User, RefreshToken, TokenPair, RotatedTokenEntry, Accounts, query, find_user, get_user_by_id,
}
use entra_api.Accounts.Calm.{with_script, calm}
use entra_api.Accounts.Crypto.{Crypto}
use entra_api.Accounts.Tokens.{
  find_refresh, drop_refresh, create_refresh_token, get_refresh_token, delete_refresh_token,
}
use entra_api.Auth.{
  JwtConfig, err_invalid_token, err_user_not_found, grace_window, refresh_row, draw,
  generate_token_pair, remember_rotation, forget_rotation, rotate, refresh_token,
}

-- The state at a later time, with no failures to come.
abbrev pub at_time : ℕ → Accounts → Accounts
at_time n s = record s { env = record { now = n; script = [] } }

drops :
    (n : ℕ) (token : String) (t : RefreshToken) (ts : List RefreshToken)
    → t.token ≢ token
    → find_refresh n token (drop_refresh token ts ++ t ∷ []) ≡ none
unfolding find_refresh drop_refresh
drops n token t [] h = ground (arith, eq_iff t.token token)
drops n token t (x ∷ ts) h = ground (arith, drops n token t ts h)

drops-other :
    (n : ℕ) (token : String) (ts : List RefreshToken)
    → find_refresh n token (drop_refresh token ts) ≡ none
unfolding find_refresh drop_refresh
drops-other n token [] = refl
drops-other n token (x ∷ ts) = ground (arith, drops-other n token ts)

module _ (uuids : Uuids) (crypto : Crypto) (cfg : JwtConfig) where
  fresh_rotates :
      (token agent ip : String) (s : Accounts)
      → s.recent_rotations token ≡ none
      → refresh_token uuids crypto cfg token agent ip s ≡ rotate uuids crypto cfg token agent ip s
  unfolding refresh_token
  fresh_rotates token agent ip s new = ground arith

  -- What a rotation that succeeds has done.
  Rotated : String → TokenPair → ℕ → ℕ → Accounts → Type 0
  Rotated token t now n s' =
      (s'.recent_rotations token ≡ some (record { tokens = t; expires_at = now + grace_window }))
      × (find_refresh n token s'.refresh_tokens ≡ none)

  -- The state after a token pair was made.
  abbrev with_session : User → TokenPair → String → String → Accounts → Accounts
  with_session u t agent ip s = record (with_script [] s) {
    drawn = suc s.drawn;
    refresh_tokens =
        s.refresh_tokens ++ refresh_row uuids crypto cfg u s.env.now t.refresh_token agent ip ∷ [];
  }

  generated :
      (u : User) (agent ip : String) (t : TokenPair) (s : Accounts)
      → (generate_token_pair uuids crypto cfg u agent ip (with_script [] s)).0 ≡ ok t
      → (generate_token_pair uuids crypto cfg u agent ip (with_script [] s)).1
        ≡ with_session u t agent ip s
  unfolding generate_token_pair draw create_refresh_token query
  generated u agent ip t s h = ground arith

  -- The end of a rotation.
  abbrev finish : String → Result TokenPair × Accounts → Result TokenPair × Accounts
  finish token r = (◌>>=◌ (λ _. r) (λ tokens. remember_rotation token tokens >> pure tokens)) r.1

  abbrev dropped : String → Accounts → Accounts
  dropped token s = record s { refresh_tokens = drop_refresh token s.refresh_tokens }

  rotate_found :
      (token agent ip : String) (row : RefreshToken) (u : User) (s : Accounts)
      → find_refresh s.env.now token s.refresh_tokens ≡ some row
      → find_user row.user_id s.users ≡ some u
      → rotate uuids crypto cfg token agent ip (with_script [] s)
        ≡ finish token
            (generate_token_pair uuids crypto cfg u agent ip (with_script [] (dropped token s)))
  unfolding rotate get_refresh_token query delete_refresh_token get_user_by_id
  rotate_found token agent ip row u s e f = ground arith

  rotate_fails :
      (token agent ip : String) (t : TokenPair) (s : Accounts)
      → find_refresh s.env.now token s.refresh_tokens ≡ none
      → (rotate uuids crypto cfg token agent ip (with_script [] s)).0 ≡ err err_invalid_token
  unfolding rotate get_refresh_token query
  rotate_fails token agent ip t s e = ground arith

  rotate_deserted :
      (token agent ip : String) (row : RefreshToken) (s : Accounts)
      → find_refresh s.env.now token s.refresh_tokens ≡ some row
      → find_user row.user_id s.users ≡ none
      → (rotate uuids crypto cfg token agent ip (with_script [] s)).0 ≡ err err_user_not_found
  unfolding rotate get_refresh_token query delete_refresh_token get_user_by_id
  rotate_deserted token agent ip row s e f = ground arith

  finished :
      (token agent ip : String) (t : TokenPair) (n : ℕ) (u : User) (s : Accounts)
      (r : Result TokenPair × Accounts)
      → t.refresh_token ≢ token
      → ((t : TokenPair) → r.0 ≡ ok t → r.1 ≡ with_session u t agent ip (dropped token s))
      → (finish token r).0 ≡ ok t
      → Rotated token t s.env.now n (finish token r).1
  unfolding Rotated remember_rotation
  finished token agent ip t n u s (err e, s') differs made h = absurd (ground (arith, h))
  finished token agent ip t n u s (ok t', s') differs made h = ground (
    arith,
    h,
    made t' refl,
    eq_refl token,
    drops n token (refresh_row uuids crypto cfg u s.env.now t.refresh_token agent ip)
        s.refresh_tokens differs,
  )

  rotated :
      (token agent ip : String) (t : TokenPair) (n : ℕ) (s : Accounts)
      → t.refresh_token ≢ token
      → (rotate uuids crypto cfg token agent ip (with_script [] s)).0 ≡ ok t
      → Rotated token t s.env.now n (rotate uuids crypto cfg token agent ip (with_script [] s)).1
  rotated token agent ip t n s differs h =
      elim (Option-cases (find_refresh s.env.now token s.refresh_tokens)) [
        | inl e ↦ absurd (ground (arith, rotate_fails token agent ip t s e, h))
        | inr (row, e) ↦ elim (Option-cases (find_user row.user_id s.users)) [
          | inl f ↦ absurd (ground (arith, rotate_deserted token agent ip row s e f, h))
          | inr (u, f) ↦
              let same = rotate_found token agent ip row u s e f in
              subst (λ r. Rotated token t s.env.now n r.1) (sym same)
                (finished token agent ip t n u s _ differs
                  (λ t'. generated u agent ip t' (dropped token s)) (sym (ap (λ r. r.0) same) ∙ h))
        ]
      ]

  repeats :
      (token agent ip : String) (e : RotatedTokenEntry) (n : ℕ) (s : Accounts)
      → s.recent_rotations token ≡ some e
      → n < e.expires_at
      → refresh_token uuids crypto cfg token agent ip (at_time n s) ≡ (ok e.tokens, at_time n s)
  unfolding refresh_token
  repeats token agent ip e n s h lt = ground arith

  expires :
      (token agent ip : String) (e : RotatedTokenEntry) (n : ℕ) (s : Accounts)
      → s.recent_rotations token ≡ some e
      → e.expires_at ≤ n
      → find_refresh n token s.refresh_tokens ≡ none
      → (refresh_token uuids crypto cfg token agent ip (at_time n s)).0 ≡ err err_invalid_token
  unfolding refresh_token forget_rotation
  expires token agent ip e n s h le gone = ground (
    arith,
    rotate_fails token agent ip e.tokens
        (record (at_time n s) { recent_rotations = put token none s.recent_rotations }) gone,
  )

  -- Where no call fails, after a refresh token was exchanged for a pair whose own refresh token is
  -- another text, the same refresh token gives the very same pair for the next thirty seconds, and
  -- from then on it is refused as invalid.
  pub rotates_once :
      (token agent ip agent' ip' : String) (t : TokenPair) (n : ℕ) (s : Accounts)
      → s.env.script ≡ []
      → s.recent_rotations token ≡ none
      → t.refresh_token ≢ token
      → (refresh_token uuids crypto cfg token agent ip s).0 ≡ ok t
      → (refresh_token uuids crypto cfg token agent' ip'
          (at_time n (refresh_token uuids crypto cfg token agent ip s).1)).0
        ≡ (if ltb n (s.env.now + grace_window) then ok t else err err_invalid_token)
  unfolding Rotated
  rotates_once token agent ip agent' ip' t n s quiet new differs h =
      let s' = (refresh_token uuids crypto cfg token agent ip s).1 in
      let same = fresh_rotates token agent ip s new in
      let done =
        subst (λ r. Rotated token t s.env.now n r.1) (sym same)
          (calm
            (λ s.
              (rotate uuids crypto cfg token agent ip s).0 ≡ ok t
              → Rotated token t s.env.now n (rotate uuids crypto cfg token agent ip s).1)
            s quiet (rotated token agent ip t n s differs) (sym (ap (λ r. r.0) same) ∙ h)) in
      let e : RotatedTokenEntry = record { tokens = t; expires_at = s.env.now + grace_window } in
      elim (Bool-cases (ltb n (s.env.now + grace_window))) [
        | inl early ↦
            rw early (ap (λ r. r.0) (repeats token agent' ip' e n s' done.0 (ground arith)))
        | inr late ↦ rw late (expires token agent' ip' e n s' done.0 (ground arith) done.1)
      ]
