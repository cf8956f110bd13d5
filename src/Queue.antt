-- ===== src/Queue.antt =====
-- The waiting room: the queue of each event in Redis, from
-- ticket-service/internal/service/queue_service.go.
pub mod Runs
pub mod Turns
pub mod Fresh
use entra_api.Base.{
  ℕ, suc, ◌+◌, ◌*◌, ◌/◌, String, Bool, true, false, not, ◌&&◌, Option, none, some, List, [], ◌∷◌,
  ◌==◌, str_eq, if◌then◌else◌,
}
use entra_api.Base.Go.{Go, Result, ok, err, pure, gets, attempt, ignore, ◌>>=◌, ◌>>◌}
use entra_api.Base.External.{Uuids}
use entra_api.Platform.{Order, Platform, external, second}
use entra_api.Tables.{
  find_order, get_order, move_deadline, set_active, set_expires_at, clear_slot, set_waiting,
}

-- `QueueActiveDuration`, in nanoseconds.
abbrev pub queue_active_duration : ℕ
queue_active_duration = 180 * second

-- `t.Unix()`
abbrev pub unix : ℕ → ℕ
unix t = t / second

module _ (uuids : Uuids) where
  -- The order takes the slot of the event for three minutes.
  unfoldable pub take_slot : ℕ → ℕ → String → Go Platform ℕ
  take_slot event id id_text = do
    now ← gets (λ s. s.env.now)
    ignore (set_active event (some id_text))
    ignore (set_expires_at event (some (unix (now + queue_active_duration))))
    ignore (move_deadline id (now + queue_active_duration))
    pure (now + queue_active_duration)

  -- Whether `AdvanceQueue` may promote the order that it fetched.
  abbrev pub is_pending : Result Order → Bool
  is_pending (ok o) = str_eq o.status "PENDING"
  is_pending (err _) = false

  -- The loop of `AdvanceQueue` over the waiting list: `LPOP` takes the head off, and an entry that is
  -- no id, or whose order is not pending any more, is dropped.
  unfoldable pub advance_loop : ℕ → List String → Go Platform (Option String)
  advance_loop event [] = do attempt external; ignore (clear_slot event); pure none
  advance_loop event (x ∷ rest) =
      let continue = advance_loop event rest in
      let stop : Go Platform (Option String) = ignore (clear_slot event) >> pure none in
      do
        popped ← attempt external
        elim popped [
          | err _ ↦ stop
          | ok _ ↦ do
            set_waiting event rest
            if str_eq x "" then stop else elim (uuids.parse x) [
              | none ↦ continue
              | some id ↦ do
                r ← attempt (get_order id)
                if is_pending r then take_slot event id x >> pure (some x) else continue
            ]
        ]

  -- `TicketService.AdvanceQueue`
  unfoldable pub advance_queue : ℕ → Go Platform (Option String)
  advance_queue event = do
    redis ← gets (λ s. s.redis_on)
    if not redis
        then pure none
        else do waiting ← gets (λ s. s.redis.waiting event); advance_loop event waiting
