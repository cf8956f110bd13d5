-- ===== src/Auth/Distinct.antt =====
-- No two accounts share an id or an address.
use entra_api.Base.{
  ℕ, suc, ◌<◌, String, ◌≡◌, ◌≢◌, refl, inl, inr, false, ◌&&◌, Option, List, [], ◌∷◌, ◌++◌, ◌==◌,
  arith, eq_iff, All, Bool-cases,
}
use entra_api.Base.External.{Uuids}
use entra_api.Accounts.{User, Accounts, email_taken, set_password, set_role, set_profile}
use entra_api.Accounts.Crypto.{Crypto}
use entra_api.Auth.{JwtConfig}
use entra_api.Auth.Users.{UserRules, On-AuthRules, new_customer}
use entra_api.Auth.Requests.{AuthRequest, serve_requests, serve_requests_keep}

abbrev pub Apart : User → User → Type 0
Apart u v = (u.id ≢ v.id) × (u.email ≢ v.email)

-- The accounts differ in id and address, and the next id is new.
abbrev pub Distinct : ℕ → List User → Type 0
Distinct n [] = Unit
Distinct n (u ∷ us) = (u.id < n) × All (Apart u) us × Distinct n us

-- The same ids and addresses in the same order.
abbrev SameKeys : List User → List User → Type 0
SameKeys [] [] = Unit
SameKeys [] (v ∷ vs) = ⊥
SameKeys (u ∷ us) [] = ⊥
SameKeys (u ∷ us) (v ∷ vs) = (v.id ≡ u.id) × (v.email ≡ u.email) × SameKeys us vs

SameKeys-refl : (us : List User) → SameKeys us us
SameKeys-refl [] = tt
SameKeys-refl (u ∷ us) = (refl, refl, SameKeys-refl us)

Apart-same :
    (u v : User) (us vs : List User)
    → v.id ≡ u.id
    → v.email ≡ u.email
    → SameKeys us vs
    → All (Apart u) us
    → All (Apart v) vs
Apart-same u v [] [] e f k h = tt
Apart-same u v [] (y ∷ vs) e f k h = absurd k
Apart-same u v (x ∷ us) [] e f k h = absurd k
Apart-same u v (x ∷ us) (y ∷ vs) e f (g, g', k) h =
    ((λ p. h.0.0 (cc), λ p. h.0.1 (cc)), Apart-same u v us vs e f k h.1)

Distinct-same : (n : ℕ) (us vs : List User) → SameKeys us vs → Distinct n us → Distinct n vs
Distinct-same n [] [] k h = tt
Distinct-same n [] (v ∷ vs) k h = absurd k
Distinct-same n (u ∷ us) [] k h = absurd k
Distinct-same n (u ∷ us) (v ∷ vs) (e, f, k) (h, h', h'') =
    (rw e h, Apart-same u v us vs e f k h', Distinct-same n us vs k h'')

same-password : (us : List User) (id : ℕ) (hash : String) → SameKeys us (set_password id hash us)
unfolding set_password
same-password [] id hash = tt
same-password (u ∷ us) id hash = elim (Bool-cases (u.id == id)) [
  | inl hit ↦ rw hit (refl, refl, SameKeys-refl us)
  | inr miss ↦ rw miss (refl, refl, same-password us id hash)
]

same-role : (us : List User) (id : ℕ) (role : String) → SameKeys us (set_role id role us)
unfolding set_role
same-role [] id role = tt
same-role (u ∷ us) id role = elim (Bool-cases (u.id == id)) [
  | inl hit ↦ rw hit (refl, refl, SameKeys-refl us)
  | inr miss ↦ rw miss (refl, refl, same-role us id role)
]

same-profile :
    (us : List User) (id : ℕ) (name : String) (phone avatar : Option String)
    → SameKeys us (set_profile id name phone avatar us)
unfolding set_profile
same-profile [] id name phone avatar = tt
same-profile (u ∷ us) id name phone avatar = elim (Bool-cases (u.id == id && u.is_active)) [
  | inl hit ↦ rw hit (refl, refl, SameKeys-refl us)
  | inr miss ↦ rw miss (refl, refl, same-profile us id name phone avatar)
]

-- A new account at the end of the table.
Apart-new :
    (u v : User) (us : List User) → Apart u v → All (Apart u) us → All (Apart u) (us ++ v ∷ [])
Apart-new u v [] h k = (h, tt)
Apart-new u v (x ∷ us) h k = (k.0, Apart-new u v us h k.1)

Distinct-insert :
    (n : ℕ) (us : List User) (email hash name : String) (phone : Option String)
    → email_taken email us ≡ false
    → Distinct n us
    → Distinct (suc n) (us ++ new_customer n email hash name phone ∷ [])
unfolding email_taken
Distinct-insert n [] email hash name phone e h = (omega arith, tt, tt)
Distinct-insert n (u ∷ us) email hash name phone e (h, h', h'') = (
  omega arith,
  Apart-new u (new_customer n email hash name phone) us
      (λ p. omega arith, λ p. ground (arith, eq_iff u.email email)) h',
  Distinct-insert n us email hash name phone (ground arith) h'',
)

Distinct-rules : UserRules Distinct
Distinct-rules = record {
  insert = λ n us email hash name phone free h. Distinct-insert n us email hash name phone free h;
  password = λ n us id hash h. Distinct-same n us _ (same-password us id hash) h;
  role = λ n us id h. Distinct-same n us _ (same-role us id "organizer") h;
  profile =
      λ n us id name phone avatar h. Distinct-same n us _ (same-profile us id name phone avatar) h;
}

-- If no two accounts share an id or an address and all ids are below the next one, this is so after
-- any history of requests to the auth service, whichever calls fail.
pub accounts_stay-Distinct :
    (uuids : Uuids) (crypto : Crypto) (cfg : JwtConfig) (rs : List AuthRequest) (s : Accounts)
    → Distinct s.next_id s.users
    → Distinct
        (serve_requests uuids crypto cfg rs s).next_id
        (serve_requests uuids crypto cfg rs s).users
accounts_stay-Distinct uuids crypto cfg rs s h =
    (serve_requests_keep uuids crypto cfg (On-AuthRules crypto Distinct-rules) rs s
      (record { holds = h })).holds
