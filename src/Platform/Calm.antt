-- ===== src/Platform/Calm.antt =====
-- A state with no failures to come may be taken with its script written out, so that runs compute.
use entra_api.Base.{◌≡◌, Bool, List, [], subst, sym, ap}
use entra_api.Base.Go.{Outcome}
use entra_api.Platform.{Platform}

abbrev pub with_script : List Outcome → Platform → Platform
with_script script s = record s { env = record { now = s.env.now; script = script } }

pub calm : (T : Platform → Type 0) (s : Platform) → s.env.script ≡ [] → T (with_script [] s) → T s
calm T s quiet h = subst T (sym (ap (λ x. with_script x s) quiet)) h

pub calm_redis :
    (T : Platform → Type 0) (s : Platform) (on : Bool)
    → s.env.script ≡ []
    → s.redis_on ≡ on
    → T (record (with_script [] s) { redis_on = on })
    → T s
calm_redis T s on quiet redis h =
    calm T s quiet (subst (λ b. T (record (with_script [] s) { redis_on = b })) (sym redis) h)
