-- ===== src/Queue/Runs.antt =====
-- What `AdvanceQueue` keeps, from what its single steps keep.
use entra_api.Base.{ℕ, ◌+◌, String, not, Option, none, some, List, [], ◌∷◌, str_eq, if◌then◌else◌}
use entra_api.Base.Go.{Result, ok, err, pure, attempt, ignore, ◌>>=◌, ◌>>◌}
use entra_api.Base.Keeps.{
  Keeps, Keeps-pure, Keeps-gets, Keeps-attempt, Keeps-ignore, Keeps-bind, Keeps-if,
}
use entra_api.Base.External.{Uuids}
use entra_api.Platform.{Platform, external}
use entra_api.Tables.{get_order, move_deadline, set_active, set_expires_at, clear_slot, set_waiting}
use entra_api.Queue.{
  queue_active_duration, unix, take_slot, is_pending, advance_loop, advance_queue,
}

-- A property that each single step keeps.
pub record QueueRules (P : Platform → Type 0) : Type 0 where
  pub calls : Keeps P external
  pub get_order_keeps : (id : ℕ) → Keeps P (get_order id)
  pub move_deadline_keeps : (id t : ℕ) → Keeps P (move_deadline id t)
  pub set_active_keeps : (event : ℕ) (v : Option String) → Keeps P (set_active event v)
  pub set_expires_at_keeps : (event : ℕ) (v : Option ℕ) → Keeps P (set_expires_at event v)
  pub clear_slot_keeps : (event : ℕ) → Keeps P (clear_slot event)
  pub set_waiting_keeps : (event : ℕ) (xs : List String) → Keeps P (set_waiting event xs)

module _ (uuids : Uuids) {P : Platform → Type 0} (rules : QueueRules P) where
  open rules use {
    calls, get_order_keeps, move_deadline_keeps, set_active_keeps, set_expires_at_keeps,
    clear_slot_keeps, set_waiting_keeps,
  }

  pub take_slot-Keeps : (event id : ℕ) (x : String) → Keeps P (take_slot uuids event id x)
  unfolding take_slot
  take_slot-Keeps event id x = Keeps-bind (Keeps-gets (λ s. s.env.now)) λ now.
      Keeps-bind (Keeps-ignore (set_active_keeps event (some x))) λ _.
        Keeps-bind
          (Keeps-ignore (set_expires_at_keeps event (some (unix (now + queue_active_duration)))))
          λ _.
            Keeps-bind (Keeps-ignore (move_deadline_keeps id (now + queue_active_duration)))
              λ _. Keeps-pure (now + queue_active_duration)

  stop-Keeps : (event : ℕ) → Keeps {A = Option String} P (ignore (clear_slot event) >> pure none)
  stop-Keeps event = Keeps-bind (Keeps-ignore (clear_slot_keeps event)) λ _. Keeps-pure none

  advance_loop-Keeps : (event : ℕ) (xs : List String) → Keeps P (advance_loop uuids event xs)
  unfolding advance_loop
  advance_loop-Keeps event [] = Keeps-bind (Keeps-attempt calls) λ _. stop-Keeps event
  advance_loop-Keeps event (x ∷ rest) =
      Keeps-bind (Keeps-attempt calls) (popped (advance_loop-Keeps event rest))
    where
      fetched :
          Keeps P (advance_loop uuids event rest)
          → (o : Option ℕ)
          → Keeps P (elim o [
            | none ↦ advance_loop uuids event rest
            | some id ↦ do
              r ← attempt (get_order id)
              if is_pending uuids r
                  then take_slot uuids event id x >> pure (some x)
                  else advance_loop uuids event rest
          ])
      fetched ih none = ih
      fetched ih (some id) = Keeps-bind (Keeps-attempt (get_order_keeps id)) λ r.
          Keeps-if (is_pending uuids r)
            (Keeps-bind (take_slot-Keeps event id x) (λ _. Keeps-pure (some x))) ih

      popped :
          Keeps P (advance_loop uuids event rest)
          → (r : Result (Unit {0}))
          → Keeps P (elim r [
            | err _ ↦ ignore (clear_slot event) >> pure none
            | ok _ ↦ do
              set_waiting event rest
              if str_eq x "" then ignore (clear_slot event) >> pure none else elim (uuids.parse x) [
                | none ↦ advance_loop uuids event rest
                | some id ↦ do
                  r ← attempt (get_order id)
                  if is_pending uuids r
                      then take_slot uuids event id x >> pure (some x)
                      else advance_loop uuids event rest
              ]
          ])
      popped ih (err _) = stop-Keeps event
      popped ih (ok _) =
          Keeps-bind (set_waiting_keeps event rest)
            λ _. Keeps-if (str_eq x "") (stop-Keeps event) (fetched ih (uuids.parse x))

  pub advance_queue-Keeps : (event : ℕ) → Keeps P (advance_queue uuids event)
  unfolding advance_queue
  advance_queue-Keeps event = Keeps-bind (Keeps-gets (λ s. s.redis_on)) λ redis.
      Keeps-if (not redis) (Keeps-pure none)
        (Keeps-bind (Keeps-gets (λ s. s.redis.waiting event)) λ xs. advance_loop-Keeps event xs)
