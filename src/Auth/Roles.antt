-- ===== src/Auth/Roles.antt =====
-- Which roles the accounts have, and that no two accounts share an id or an address.
use entra_api.Base.{
  ℕ, String, ◌≡◌, refl, ◌⊎◌, inl, inr, ◌&&◌, Option, List, [], ◌∷◌, ◌==◌, All, All-append,
  Bool-cases,
}
use entra_api.Base.External.{Uuids}
use entra_api.Accounts.{User, Accounts, set_password, set_role, set_profile}
use entra_api.Accounts.Crypto.{Crypto}
use entra_api.Auth.{JwtConfig}
use entra_api.Auth.Users.{UserRules, On-AuthRules, new_customer}
use entra_api.Auth.Requests.{AuthRequest, serve_requests, serve_requests_keep}

-- A customer, an organizer, or an account that may have its role.
abbrev pub HasRole : (ℕ → String → Type 0) → User → Type 0
HasRole A u = (u.role ≡ "customer") ⊎ ((u.role ≡ "organizer") ⊎ A u.id u.role)

abbrev Roles : (ℕ → String → Type 0) → ℕ → List User → Type 0
Roles A n us = All (HasRole A) us

module _ (A : ℕ → String → Type 0) where
  roles-password :
      (us : List User) (id : ℕ) (hash : String)
      → All (HasRole A) us
      → All (HasRole A) (set_password id hash us)
  unfolding set_password
  roles-password [] id hash h = tt
  roles-password (u ∷ us) id hash h = elim (Bool-cases (u.id == id)) [
    | inl hit ↦ rw hit (h.0, h.1)
    | inr miss ↦ rw miss (h.0, roles-password us id hash h.1)
  ]

  roles-role :
      (us : List User) (id : ℕ) → All (HasRole A) us → All (HasRole A) (set_role id "organizer" us)
  unfolding set_role
  roles-role [] id h = tt
  roles-role (u ∷ us) id h = elim (Bool-cases (u.id == id)) [
    | inl hit ↦ rw hit (inr (inl refl), h.1)
    | inr miss ↦ rw miss (h.0, roles-role us id h.1)
  ]

  roles-profile :
      (us : List User) (id : ℕ) (name : String) (phone avatar : Option String)
      → All (HasRole A) us
      → All (HasRole A) (set_profile id name phone avatar us)
  unfolding set_profile
  roles-profile [] id name phone avatar h = tt
  roles-profile (u ∷ us) id name phone avatar h = elim (Bool-cases (u.id == id && u.is_active)) [
    | inl hit ↦ rw hit (h.0, h.1)
    | inr miss ↦ rw miss (h.0, roles-profile us id name phone avatar h.1)
  ]

  Roles-rules : UserRules (Roles A)
  Roles-rules = record {
    insert = λ n us email hash name phone free h.
        All-append (HasRole A) us (new_customer n email hash name phone ∷ []) h (inl refl, tt);
    password = λ n us id hash h. roles-password us id hash h;
    role = λ n us id h. roles-role us id h;
    profile = λ n us id name phone avatar h. roles-profile us id name phone avatar h;
  }

  -- Let the accounts with other roles than customer and organizer be among those that may have
  -- their role. Then it is so after any history of requests to the auth service, whichever calls
  -- fail: no request gives anybody the role of an administrator, also not a registration that asks
  -- for it.
  pub no_new_admins :
      (uuids : Uuids) (crypto : Crypto) (cfg : JwtConfig) (rs : List AuthRequest) (s : Accounts)
      → All (HasRole A) s.users
      → All (HasRole A) (serve_requests uuids crypto cfg rs s).users
  no_new_admins uuids crypto cfg rs s h =
      (serve_requests_keep uuids crypto cfg (On-AuthRules crypto Roles-rules) rs s
        (record { holds = h })).holds
