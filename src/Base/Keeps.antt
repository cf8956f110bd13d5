-- ===== src/Base/Keeps.antt =====
-- Rules for a property that a run keeps, whatever its external calls do.
use Prim.Native.Nat.{ℕ, ◌≤◌}
use mathlib.Core.Bool.{Bool, true, false}
use mathlib.Core.Option.{Option, none, some}
use mathlib.Core.List.{List, [], ◌∷◌}
use native.Mathlib.Omega.{arith}
use entra_api.Base.Tests.{All, length, if◌then◌else◌}
use entra_api.Base.Go.{
  Go, Error, Outcome, Env, call, after_call, Result, ok, err, pure, fail, gets, attempt, ignore,
  or_fail, or_none, ◌>>=◌, fail_if, modify, for_each,
}

-- From a state with the property, the run ends in one with it, also where it returns an error.
pub record Keeps {S A : Type 0} (P : S → Type 0) (m : Go S A) : Type 0 where
  pub run : (s : S) → P s → P (m s).1

-- A call takes at most one outcome off the script.
pub call_shorter : (e : Env) → length (call e).1.script ≤ length e.script
call_shorter e = shorter e.now e.script
  where
    shorter : (t : ℕ) (os : List Outcome) → length (after_call t os).1.script ≤ length os
    shorter t [] = ground arith
    shorter t (o ∷ os) = ground arith

pub le_same : (n : ℕ) → n ≤ n
le_same n = omega arith

-- A postcondition of a bind: from a property after the first run, on both of its endings.
pub bind_post :
    {S A B : Type 0} (P : S → Type 0) (Q : Result B × S → Type 0) (r : Result A × S)
    (f : A → Go S B)
    → P r.1
    → ((e : Error) (s : S) → P s → Q (err e, s))
    → ((a : A) (s : S) → P s → Q (f a s))
    → Q ((◌>>=◌ (λ _. r) f) r.1)
bind_post P Q (ok a, s) f h k l = l a s h
bind_post P Q (err e, s) f h k l = k e s h

-- From a state with the first property, the run ends in the second, on results and states.
pub record Ensures {S A : Type 0} (P : S → Type 0) (Q : Result A × S → Type 0) (m : Go S A)
    : Type 0 where
  pub run : (s : S) → P s → Q (m s)

pub Ensures-bind :
    {S A B : Type 0} {P : S → Type 0} {Q : Result B × S → Type 0} {m : Go S A} {f : A → Go S B}
    → Keeps P m
    → ((e : Error) (s : S) → P s → Q (err e, s))
    → ((a : A) → Ensures P Q (f a))
    → Ensures P Q (m >>= f)
Ensures-bind {P = P} {Q = Q} {m = m} {f = f} k l n = record {
  run = λ s h. bind_post P Q (m s) f (k.run s h) l (λ a. (n a).run);
}

or_fail_run :
    {S A : Type 0} (P : S → Type 0) (e : Error) (r : Result A × S)
    → P r.1
    → P (or_fail (λ _. r) e r.1).1
or_fail_run P e (ok a, s) h = h
or_fail_run P e (err _, s) h = h

module _ {S : Type 0} {P : S → Type 0} where
  pub Keeps-pure : {A : Type 0} (a : A) → Keeps P (pure a)
  Keeps-pure a = record { run = λ s h. h }

  pub Keeps-fail : {A : Type 0} (e : Error) → Keeps {A = A} P (fail e)
  Keeps-fail e = record { run = λ s h. h }

  pub Keeps-gets : {A : Type 0} (f : S → A) → Keeps P (gets f)
  Keeps-gets f = record { run = λ s h. h }

  pub Keeps-fail_if : (c : Bool) (e : Error) → Keeps P (fail_if c e)
  Keeps-fail_if c e = record { run = λ s h. h }

  pub Keeps-or_none : {A : Type 0} (o : Option A) (e : Error) → Keeps P (or_none o e)
  Keeps-or_none none e = Keeps-fail e
  Keeps-or_none (some a) e = Keeps-pure a

  pub Keeps-modify : {f : S → S} → ((s : S) → P s → P (f s)) → Keeps P (modify f)
  Keeps-modify k = record { run = k }

  pub Keeps-attempt : {A : Type 0} {m : Go S A} → Keeps P m → Keeps P (attempt m)
  Keeps-attempt k = record { run = k.run }

  pub Keeps-ignore : {A : Type 0} {m : Go S A} → Keeps P m → Keeps P (ignore m)
  Keeps-ignore k = record { run = k.run }

  pub Keeps-or_fail : {A : Type 0} {m : Go S A} (e : Error) → Keeps P m → Keeps P (or_fail m e)
  Keeps-or_fail {m = m} e k = record { run = λ s h. or_fail_run P e (m s) (k.run s h) }

  bind_run :
      {A B : Type 0} (r : Result A × S) (f : A → Go S B)
      → P r.1
      → ((a : A) → Keeps P (f a))
      → P (◌>>=◌ (λ _. r) f r.1).1
  bind_run (ok a, s) f h k = (k a).run s h
  bind_run (err e, s) f h k = h

  pub Keeps-bind :
      {A B : Type 0} {m : Go S A} {f : A → Go S B}
      → Keeps P m
      → ((a : A) → Keeps P (f a))
      → Keeps P (m >>= f)
  Keeps-bind {m = m} {f = f} k l = record { run = λ s h. bind_run (m s) f (k.run s h) l }

  pub Keeps-if :
      {A : Type 0} (c : Bool) {m n : Go S A} → Keeps P m → Keeps P n → Keeps P (if c then m else n)
  Keeps-if true k l = k
  Keeps-if false k l = l

  pub Keeps-for_each :
      {A : Type 0} (xs : List A) {body : A → Go S (Unit {0})}
      → ((a : A) → Keeps P (body a))
      → Keeps P (for_each xs body)
  unfolding for_each
  Keeps-for_each [] k = record { run = λ s h. h }
  Keeps-for_each (x ∷ xs) {body = body} k = record {
    run = λ s h. (Keeps-for_each xs {body = body} k).run (body x s).1 ((k x).run s h);
  }

-- What a run gives back where it succeeds, beside the property that it keeps.
abbrev pub Yields : {S A : Type 0} → (S → Type 0) → (A → Type 0) → Result A × S → Type 0
Yields P R (ok a, s) = R a × P s
Yields P R (err e, s) = P s

yields_run :
    {S A B : Type 0} (P : S → Type 0) (R : A → Type 0) (r : Result A × S) (f : A → Go S B)
    → Yields P R r
    → ((a : A) → R a → Keeps P (f a))
    → P ((◌>>=◌ (λ _. r) f) r.1).1
yields_run P R (ok a, s) f h k = (k a h.0).run s h.1
yields_run P R (err e, s) f h k = h

pub Keeps-bind-Yields :
    {S A B : Type 0} {P : S → Type 0} (m : Go S A) {f : A → Go S B} (R : A → Type 0)
    → ((s : S) → P s → Yields P R (m s))
    → ((a : A) → R a → Keeps P (f a))
    → Keeps P (m >>= f)
Keeps-bind-Yields {P = P} m {f = f} R h k = record { run = λ s v. yields_run P R (m s) f (h s v) k }

pub Keeps-for_fine :
    {S A : Type 0} {P : S → Type 0} (R : A → Type 0) (xs : List A) {body : A → Go S (Unit {0})}
    → All R xs
    → ((a : A) → R a → Keeps P (body a))
    → Keeps P (for_each xs body)
unfolding for_each
Keeps-for_fine R [] h k = record { run = λ s v. v }
Keeps-for_fine R (x ∷ xs) {body = body} h k = record {
  run = λ s v. (Keeps-for_fine R xs {body = body} h.1 k).run (body x s).1 ((k x h.0).run s v);
}

pub ruleset keeps = (
  Keeps-pure, Keeps-fail, Keeps-gets, Keeps-fail_if, Keeps-or_none, Keeps-attempt, Keeps-ignore,
  Keeps-or_fail, Keeps-bind, Keeps-if, Keeps-for_each,
)
