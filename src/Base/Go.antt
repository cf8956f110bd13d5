-- ===== src/Base/Go.antt =====
-- The calling conventions of the services: a Go function that returns `(T, error)` and changes the
-- state of its service, and the external calls (database, Redis, HTTP, Kafka), each of which takes
-- some time and may fail. What the calls of one run do is written in a script.
use Prim.Native.Nat.{ℕ, ◌+◌}
use mathlib.Core.Bool.{Bool, false}
use mathlib.Core.Option.{Option, none, some}
use mathlib.Core.List.{List, [], ◌∷◌}
use Prim.Native.String.{String}
use entra_api.Base.Tests.{if◌then◌else◌}

-- `no_rows` is `pgx.ErrNoRows`, `unavailable` is any failure of an external call, and `message` is an
-- error that the code makes by `errors.New` or `fmt.Errorf`.
pub data Error : Type 0 where
  no_rows unavailable : Error
  message : String → Error

pub data Result (A : Type 0) : Type 0 where
  ok : A → Result A
  err : Error → Result A

-- What one external call does.
pub record Outcome : Type 0 where
  pub fails : Bool
  pub elapsed : ℕ

-- The clock, in nanoseconds, and the outcomes of the calls to come; beyond the end of the script
-- every call succeeds at once.
pub record Env : Type 0 where
  pub now : ℕ
  pub script : List Outcome

abbrev pub after_call : ℕ → List Outcome → Bool × Env
after_call t [] = (false, record { now = t; script = [] })
after_call t (o ∷ rest) = (o.fails, record { now = t + o.elapsed; script = rest })

-- One external call: whether it fails, and the environment after it.
abbrev pub call : Env → Bool × Env
call e = after_call e.now e.script

abbrev pub Go : Type 0 → Type 0 → Type 0
Go S A = S → Result A × S

module _ {S : Type 0} {A : Type 0} where
  abbrev pub pure : A → Go S A
  pure a s = (ok a, s)

  -- An early `return` with an error.
  abbrev pub fail : Error → Go S A
  fail e s = (err e, s)

  -- A value read from the state.
  abbrev pub gets : (S → A) → Go S A
  gets f s = (ok (f s), s)

  -- The result of a call whose error the caller inspects.
  abbrev pub attempt : Go S A → Go S (Result A)
  attempt m s = let (r, s') = m s in (ok r, s')

  -- `_ = f(x)`
  abbrev pub ignore : Go S A → Go S (Unit {0})
  ignore m s = let (r, s') = m s in (ok tt, s')

  -- A call whose error is replaced by the caller's.
  abbrev pub or_fail : Go S A → Error → Go S A
  or_fail m e s = let (r, s') = m s in elim r [ ok a ↦ (ok a, s') | err _ ↦ (err e, s') ]

  abbrev pub or_none : Option A → Error → Go S A
  or_none none e = fail e
  or_none (some a) e = pure a

infixl 5 ◌>>=◌ ◌>>◌
abbrev pub ◌>>=◌ : {S A B : Type 0} → Go S A → (A → Go S B) → Go S B
◌>>=◌ m f s = let (r, s') = m s in elim r [ ok a ↦ f a s' | err e ↦ (err e, s') ]

abbrev pub ◌>>◌ : {S A B : Type 0} → Go S A → Go S B → Go S B
m >> k = m >>= λ _. k

-- `if c { return e }`
abbrev pub fail_if : {S : Type 0} → Bool → Error → Go S (Unit {0})
fail_if c e s = (if c then err e else ok tt, s)

-- `if c { m }`
abbrev pub when : {S : Type 0} → Bool → Go S (Unit {0}) → Go S (Unit {0})
when c m = if c then m else pure tt

abbrev pub modify : {S : Type 0} → (S → S) → Go S (Unit {0})
modify f s = (ok tt, f s)

-- `for _, x := range xs { body(x) }` with a body that does not return.
unfoldable pub for_each : {S A : Type 0} → List A → (A → Go S (Unit {0})) → Go S (Unit {0})
for_each [] body s = (ok tt, s)
for_each (x ∷ xs) body s = for_each xs body (body x s).1
