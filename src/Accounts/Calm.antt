-- ===== src/Accounts/Calm.antt =====
-- A state with no failures to come may be taken with its script written out, so that runs compute.
use entra_api.Base.{◌≡◌, List, [], subst, sym, ap}
use entra_api.Base.Go.{Outcome}
use entra_api.Accounts.{Accounts}

abbrev pub with_script : List Outcome → Accounts → Accounts
with_script script s = record s { env = record { now = s.env.now; script = script } }

pub calm : (T : Accounts → Type 0) (s : Accounts) → s.env.script ≡ [] → T (with_script [] s) → T s
calm T s quiet h = subst T (sym (ap (λ x. with_script x s) quiet)) h
