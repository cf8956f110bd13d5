-- ===== src/Base/Total.antt =====
-- Runs that end without an error.
use mathlib.Core.Path.{◌≡◌}
use mathlib.Core.Bool.{Bool, true, false}
use native.Mathlib.Omega.{arith}
use entra_api.Base.Tests.{if◌then◌else◌}
use entra_api.Base.Go.{Go, Result, ok, err, gets, ignore, ◌>>=◌}
use entra_api.Base.Keeps.{Keeps}

-- The run has no error, and ends in a state with the property.
abbrev pub Finishes : {S A : Type 0} → (S → Type 0) → Result A × S → Type 0
Finishes P (ok _, s) = P s
Finishes P (err _, s) = ⊥

-- From every state with the first property the run ends without an error, in one with the second.
pub record Total {S A : Type 0} (P Q : S → Type 0) (m : Go S A) : Type 0 where
  pub run : (s : S) → P s → Finishes Q (m s)

bind_run :
    {S A B : Type 0} (P Q : S → Type 0) (r : Result A × S) (f : A → Go S B)
    → Finishes P r
    → ((a : A) → Total P Q (f a))
    → Finishes Q ((◌>>=◌ (λ _. r) f) r.1)
bind_run P Q (ok a, s) f h k = (k a).run s h
bind_run P Q (err _, s) f h k = absurd h

module _ {S : Type 0} {P Q R : S → Type 0} where
  pub Total-bind :
      {A B : Type 0} {m : Go S A} {f : A → Go S B}
      → Total P Q m
      → ((a : A) → Total Q R (f a))
      → Total P R (m >>= f)
  Total-bind {m = m} {f = f} k l = record { run = λ s h. bind_run Q R (m s) f (k.run s h) l }

pub Total-if :
    {S A : Type 0} {P Q : S → Type 0} (c : Bool) {m n : Go S A}
    → Total P Q m
    → Total P Q n
    → Total P Q (if c then m else n)
Total-if true k l = k
Total-if false k l = l

module _ {S : Type 0} {P : S → Type 0} where
  pub Total-gets : {A : Type 0} (f : S → A) → Total P P (gets f)
  Total-gets f = record { run = λ s h. h }

  pub Total-ignore : {A : Type 0} {m : Go S A} → Keeps P m → Total P P (ignore m)
  Total-ignore k = record { run = k.run }

-- A test whose outcome is known in the state.
pub if_no :
    {S A : Type 0} (Q : S → Type 0) (c : Bool) (m n : Go S A) (s : S)
    → c ≡ false
    → Finishes Q (n s)
    → Finishes Q ((if c then m else n) s)
if_no Q true m n s e h = absurd (ground arith)
if_no Q false m n s e h = h

pub if_yes :
    {S A : Type 0} (Q : S → Type 0) (c : Bool) (m n : Go S A) (s : S)
    → c ≡ true
    → Finishes Q (m s)
    → Finishes Q ((if c then m else n) s)
if_yes Q true m n s e h = h
if_yes Q false m n s e h = absurd (ground arith)

pub if_either :
    {S A : Type 0} (Q : S → Type 0) (c : Bool) (m n : Go S A) (s : S)
    → Finishes Q (m s)
    → Finishes Q (n s)
    → Finishes Q ((if c then m else n) s)
if_either Q true m n s h k = h
if_either Q false m n s h k = k
