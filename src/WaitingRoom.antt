-- ===== src/WaitingRoom.antt =====
-- How orders enter the queue of their event, and how the queue moves on where the active order has
-- timed out: `EnqueueOrder` and `CheckAndAdvanceExpiredActive` of
-- ticket-service/internal/service/queue_service.go.
pub mod Fuel
use entra_api.Base.{
  ℕ, zero, suc, ◌+◌, ◌-◌, ◌*◌, ◌/◌, String, Bool, true, false, not, ◌&&◌, ◌||◌, Option, none, some,
  List, [], ◌∷◌, ◌==◌, ltb, leb, str_eq, length, if◌then◌else◌,
}
use entra_api.Base.Go.{
  Go, Error, message, Result, ok, err, pure, fail, gets, attempt, ignore, or_none, or_fail, fail_if,
  when, ◌>>=◌, ◌>>◌,
}
use entra_api.Base.External.{Uuids}
use entra_api.Platform.{Order, Platform, external, second}
use entra_api.Tables.{
  get_order, move_deadline, get_expires, push_waiting, list_waiting, remove_waiting,
}
use entra_api.Queue.{queue_active_duration, unix, take_slot, advance_queue}
use entra_api.Cancel.{read_active, cancel_order}

-- `QueueStatusResponse`, without the texts that only describe the order.
pub record QueueStatus : Type 0 where
  pub status : String
  pub position : ℕ
  pub people_ahead : ℕ
  pub seconds_remaining : ℕ
  pub expires_at : ℕ

abbrev pub active_status : ℕ → ℕ → QueueStatus
active_status remaining expires = record {
  status = "ACTIVE";
  position = 1;
  people_ahead = 0;
  seconds_remaining = remaining;
  expires_at = expires;
}

-- The order stands at the position; the first one holds the slot.
abbrev pub waiting_status : ℕ → QueueStatus
waiting_status position = record {
  status = "WAITING";
  position = position;
  people_ahead = position - 1;
  seconds_remaining = 0;
  expires_at = 0;
}

abbrev pub closed_status : String → QueueStatus
closed_status status = record {
  status = status;
  position = 0;
  people_ahead = 0;
  seconds_remaining = 0;
  expires_at = 0;
}

-- The parsed value of `…:expires_at`, which is 0 where there is none.
abbrev pub expiry_of : Result (Option ℕ) → ℕ
expiry_of (ok (some t)) = t
expiry_of (ok none) = 0
expiry_of (err _) = 0

unfoldable pub read_expires : ℕ → Go Platform ℕ
read_expires event = do r ← attempt (get_expires event); pure (expiry_of r)

-- `LLEN …:waiting`, or 0 where the call fails.
abbrev pub length_of : Result (List String) → ℕ
length_of (ok xs) = length xs
length_of (err _) = 0

unfoldable pub count_waiting : ℕ → Go Platform ℕ
count_waiting event = do r ← attempt (list_waiting event); pure (length_of r)

-- Two hours.
abbrev pub waiting_buffer : ℕ
waiting_buffer = 7200 * second

abbrev pub err_out_of_fuel : Error
err_out_of_fuel = message "out of fuel"

module _ (uuids : Uuids) where
  -- The end of `EnqueueOrder`: the order goes to the end of the waiting list.
  unfoldable pub join_waiting : ℕ → ℕ → String → Go Platform QueueStatus
  join_waiting event id id_text = do
    ignore (push_waiting event id_text)
    n ← count_waiting event
    now ← gets (λ s. s.env.now)
    ignore (move_deadline id (now + waiting_buffer))
    pure (waiting_status (n + 1))

  unfoldable pub activate : ℕ → ℕ → String → Go Platform QueueStatus
  activate event id id_text = do
    expires ← take_slot uuids event id id_text
    pure (active_status 180 expires)

  -- Without Redis every order is active.
  unfoldable pub activate_alone : ℕ → Go Platform QueueStatus
  activate_alone id = do
    now ← gets (λ s. s.env.now)
    ignore (move_deadline id (now + queue_active_duration))
    pure (active_status 180 (now + queue_active_duration))

  -- `TicketService.EnqueueOrder` calls itself after it has cancelled an active order that has timed
  -- out; the first argument bounds the calls.
  unfoldable pub enqueue_order : ℕ → ℕ → ℕ → Go Platform QueueStatus
  enqueue_order zero id event = fail err_out_of_fuel
  enqueue_order (suc fuel) id event =
      let again = enqueue_order fuel id event in
      do
        redis ← gets (λ s. s.redis_on)
        if not redis then activate_alone id else do
          active ← read_active event
          if str_eq active "" then activate event id (uuids.to_string id) else do
            expires ← read_expires event
            now ← gets (λ s. s.env.now)
            if ltb 0 expires && ltb expires (unix now)
                then ignore (cancel_order uuids active)
                  >> (ignore (advance_queue uuids event) >> again)
                else join_waiting event id (uuids.to_string id)

  -- `TicketService.CheckAndAdvanceExpiredActive`
  unfoldable pub check_and_advance : ℕ → Go Platform (Unit {0})
  check_and_advance event = do
    redis ← gets (λ s. s.redis_on)
    when redis do
      active ← read_active event
      if str_eq active ""
          then (do n ← count_waiting event; when (ltb 0 n) (ignore (advance_queue uuids event)))
          else do
            expires ← read_expires event
            now ← gets (λ s. s.env.now)
            when (ltb 0 expires && leb expires (unix now))
                (ignore (cancel_order uuids active) >> ignore (advance_queue uuids event))
