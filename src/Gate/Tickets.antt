-- ===== src/Gate/Tickets.antt =====
-- The table `local_tickets` and its queries (gate-service/internal/repository/db/gate.sql.go), and
-- the state of the gate service.
use entra_api.Base.{
  ℕ, String, Bool, false, ◌||◌, Option, none, some, List, ◌++◌, [], ◌∷◌, ◌==◌, str_eq,
  if◌then◌else◌,
}
use entra_api.Base.Go.{Go, no_rows, unavailable, Result, ok, err, Env, call, ◌>>◌}

-- A row; `id` is the primary key, so it is never null, and a null `event_id` is `none`.
pub record LocalTicket : Type 0 where
  pub id : ℕ
  pub event_id : Option ℕ
  pub ticket_code : String
  pub status : String

-- The payload of a message on the topic `ticket.scanned`, which is keyed by the ticket's id.
pub record Scanned : Type 0 where
  pub ticket_id : String
  pub ticket_code : String

-- `GateService` with what its calls reach: the table, and the messages that Kafka has accepted.
pub record GateService : Type 0 where
  pub env : Env
  pub tickets : List LocalTicket
  pub producer : Bool
  pub published : List Scanned

-- A call to the database, to Kafka or to another service.
unfoldable pub external : Go GateService (Unit {0})
external s =
    let (fails, env) = call s.env in
    (if fails then err unavailable else ok tt, record s { env = env })

-- `status IN ('CHECKED_IN', 'USED')`
abbrev pub is_spent : String → Bool
is_spent status = str_eq status "CHECKED_IN" || str_eq status "USED"

-- The column compared with a parameter, which may be null.
abbrev pub has_id : Option ℕ → LocalTicket → Bool
has_id none t = false
has_id (some id) t = t.id == id

unfoldable pub find_by_code : String → List LocalTicket → Option LocalTicket
find_by_code code [] = none
find_by_code code (t ∷ ts) = if str_eq t.ticket_code code then some t else find_by_code code ts

unfoldable pub find_by_id : Option ℕ → List LocalTicket → Option LocalTicket
find_by_id id [] = none
find_by_id id (t ∷ ts) = if has_id id t then some t else find_by_id id ts

-- Whether the row breaks a unique constraint: the id or the code stands in the table already.
unfoldable pub is_taken : ℕ → String → List LocalTicket → Bool
is_taken id code [] = false
is_taken id code (t ∷ ts) = t.id == id || (str_eq t.ticket_code code || is_taken id code ts)

-- The row of the id gets the status, unless it is spent.
unfoldable pub set_status : Option ℕ → String → List LocalTicket → List LocalTicket
set_status id status [] = []
set_status id status (t ∷ ts) =
    if has_id id t
    then (if is_spent t.status then t else record t { status = status }) ∷ ts
    else t ∷ set_status id status ts

abbrev row_or_none : Option LocalTicket → GateService → Result LocalTicket × GateService
row_or_none none s = (err no_rows, s)
row_or_none (some t) s = (ok t, s)

-- INSERT: a null id or a broken constraint is an error.
unfoldable pub insert_row :
    Option ℕ → Option ℕ → String → String → GateService → Result LocalTicket × GateService
insert_row none event_id code status s = (err unavailable, s)
insert_row (some id) event_id code status s =
    let t : LocalTicket = record {
      id = id;
      event_id = event_id;
      ticket_code = code;
      status = status;
    } in
    if is_taken id code s.tickets
    then (err unavailable, s)
    else (ok t, record s { tickets = s.tickets ++ t ∷ [] })

unfoldable pub create_local_ticket :
    Option ℕ → Option ℕ → String → String → Go GateService LocalTicket
unfolding insert_row
create_local_ticket id event_id code status = do external; insert_row id event_id code status

unfoldable pub get_local_ticket_by_code : String → Go GateService LocalTicket
get_local_ticket_by_code code = do external; λ s. row_or_none (find_by_code code s.tickets) s

unfoldable pub get_local_ticket_by_id : Option ℕ → Go GateService LocalTicket
get_local_ticket_by_id id = do external; λ s. row_or_none (find_by_id id s.tickets) s

-- The row after the update is returned; where no row qualifies, that is `pgx.ErrNoRows`.
unfoldable pub update_row :
    Option ℕ → String → Option LocalTicket → GateService → Result LocalTicket × GateService
update_row id status none s = (err no_rows, s)
update_row id status (some t) s =
    if is_spent t.status
    then (err no_rows, s)
    else (ok (record t { status = status }), record s { tickets = set_status id status s.tickets })

unfoldable pub update_local_ticket_status : Option ℕ → String → Go GateService LocalTicket
unfolding update_row
update_local_ticket_status id status = do
  external
  λ s. update_row id status (find_by_id id s.tickets) s
