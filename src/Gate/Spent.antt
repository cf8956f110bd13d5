-- ===== src/Gate/Spent.antt =====
-- Which tickets have been used for entry. The queries and the first steps of a scan never clear
-- that mark, and report no ticket.
use entra_api.Base.{
  ℕ, String, ◌≡◌, refl, Bool, true, false, Option, none, some, List, ◌++◌, [], ◌∷◌, arith, ◌==◌,
  Bool-cases, inl, inr,
}
use entra_api.Base.Go.{ok, err, Result, pure, fail, ignore}
use entra_api.Base.Keeps.{
  Keeps, Keeps-pure, Keeps-fail, Keeps-fail_if, Keeps-attempt, Keeps-ignore, Keeps-bind, Keeps-if,
}
use entra_api.Base.External.{Uuids}
use entra_api.Gate.Tickets.{
  LocalTicket, GateService, external, is_spent, find_by_id, set_status, create_local_ticket,
  get_local_ticket_by_code, get_local_ticket_by_id, update_local_ticket_status,
}
use entra_api.Gate.{
  RemoteTicket, pg_uuid_from_uuid, parse_or_nil, or_default, sync_ticket, check_remote, find_ticket,
}

abbrev row_spent : Option LocalTicket → Bool
row_spent none = false
row_spent (some t) = is_spent t.status

-- Whether the ticket of the id has been used for entry.
abbrev pub spent_at : ℕ → List LocalTicket → Bool
spent_at id ts = row_spent (find_by_id (some id) ts)

pub spent_at-append :
    (id : ℕ) (ts us : List LocalTicket) → spent_at id ts ≡ true → spent_at id (ts ++ us) ≡ true
unfolding find_by_id
spent_at-append id [] us h = cc
spent_at-append id (t ∷ ts) us h = ground (arith, spent_at-append id ts us)

pub spent_at-set_status :
    (id : ℕ) (j : Option ℕ) (status : String) (ts : List LocalTicket)
    → spent_at id ts ≡ true
    → spent_at id (set_status j status ts) ≡ true
unfolding find_by_id set_status
spent_at-set_status id j status [] h = cc
spent_at-set_status id none status (t ∷ ts) h =
    ground (arith, spent_at-set_status id none status ts)
spent_at-set_status id (some j) status (t ∷ ts) h =
    ground (arith, spent_at-set_status id (some j) status ts)

pub spent_at-set_status_self :
    (id : ℕ) (t : LocalTicket) (ts : List LocalTicket)
    → find_by_id (some id) ts ≡ some t
    → spent_at id (set_status (some id) "CHECKED_IN" ts) ≡ true
unfolding find_by_id set_status
spent_at-set_status_self id t [] h = cc
spent_at-set_status_self id t (u ∷ ts) h = elim (Bool-cases (u.id == id)) [
  | inl hit ↦ elim (Bool-cases (is_spent u.status)) [
    | inl used ↦ rw (hit, set_status, used, hit) used
    | inr new ↦ rw (hit, set_status, new, hit) refl
  ]
  | inr miss ↦ ground (arith, spent_at-set_status_self id t ts)
]

pub find_by_id-id :
    (id : ℕ) (t : LocalTicket) (ts : List LocalTicket)
    → find_by_id (some id) ts ≡ some t
    → t.id ≡ id
unfolding find_by_id
find_by_id-id id t [] h = cc
find_by_id-id id t (u ∷ ts) h = ground (arith, find_by_id-id id t ts)

-- A property that only depends on the messages and on the used tickets, and is not lost where more
-- tickets are used.
module _ (P : GateService → Type 0)
    (grow : (s s' : GateService)
      → s'.published ≡ s.published
      → ((id : ℕ) → spent_at id s.tickets ≡ true → spent_at id s'.tickets ≡ true)
      → P s
      → P s') where
  create-Keeps :
      (id event_id : Option ℕ) (code status : String)
      → Keeps P (create_local_ticket id event_id code status)
  unfolding create_local_ticket external
  create-Keeps none event_id code status = record {
    run = λ s v. grow s _ (ground arith) (λ i h. ground arith) v;
  }
  create-Keeps (some id) event_id code status = record {
    run = λ s v.
        grow s _ (ground arith)
          (λ i h. ground (
            arith,
            spent_at-append i s.tickets
                (record { id = id; event_id = event_id; ticket_code = code; status = status } ∷ []),
          ))
          v;
  }

  update-Keeps : (id : Option ℕ) (status : String) → Keeps P (update_local_ticket_status id status)
  unfolding update_local_ticket_status external
  update-Keeps id status = record {
    run = λ s v.
        grow s _ (ground arith) (λ i h. ground (arith, spent_at-set_status i id status s.tickets))
          v;
  }

  pub external-Keeps : Keeps P external
  unfolding external
  external-Keeps = record { run = λ s v. grow s _ (ground arith) (λ i h. ground arith) v }

  by_code-Keeps : (code : String) → Keeps P (get_local_ticket_by_code code)
  unfolding get_local_ticket_by_code external
  by_code-Keeps code = record { run = λ s v. grow s _ (ground arith) (λ i h. ground arith) v }

  by_id-Keeps : (id : Option ℕ) → Keeps P (get_local_ticket_by_id id)
  unfolding get_local_ticket_by_id external
  by_id-Keeps id = record { run = λ s v. grow s _ (ground arith) (λ i h. ground arith) v }

  pub sync-Keeps :
      (id event_id : ℕ) (code status : String) → Keeps P (sync_ticket id event_id code status)
  unfolding sync_ticket
  sync-Keeps id event_id code status =
      Keeps-bind (Keeps-attempt (create-Keeps _ _ code status)) after_insert
    where
      after_insert :
          (r : Result LocalTicket)
          → Keeps P (elim r [
            | ok _ ↦ pure tt
            | err _ ↦ ignore (update_local_ticket_status (pg_uuid_from_uuid id) status)
          ])
      after_insert (ok _) = Keeps-pure tt
      after_insert (err _) = Keeps-ignore (update-Keeps _ status)

  pub check_remote-Keeps :
      (uuids : Uuids) (answer : Option RemoteTicket) (code event_id : String)
      → Keeps P (check_remote uuids answer code event_id)
  unfolding check_remote
  check_remote-Keeps uuids none code event_id = Keeps-pure tt
  check_remote-Keeps uuids (some t) code event_id =
      Keeps-if _ (Keeps-bind (Keeps-fail_if _ _) (λ _. synced (uuids.parse t.id))) (Keeps-pure tt)
    where
      synced :
          (o : Option ℕ)
          → Keeps P (elim o [
            | none ↦ pure tt
            | some id ↦ ignore (
                sync_ticket id
                  (parse_or_nil uuids t.event_id)
                  (or_default t.ticket_code code)
                  (or_default t.status "ACTIVE"))
          ])
      synced none = Keeps-pure tt
      synced (some id) = Keeps-ignore (sync-Keeps id _ _ _)

  pub find_ticket-Keeps : (uuids : Uuids) (code : String) → Keeps P (find_ticket uuids code)
  unfolding find_ticket
  find_ticket-Keeps uuids code =
      Keeps-bind (Keeps-attempt (by_code-Keeps code)) (λ r. found r (uuids.parse code))
    where
      found :
          (r : Result LocalTicket) (o : Option ℕ)
          → Keeps P (elim r [
            | ok t ↦ pure t
            | err e ↦ elim o [
              | none ↦ fail e
              | some u ↦ get_local_ticket_by_id (pg_uuid_from_uuid u)
            ]
          ])
      found (ok t) o = Keeps-pure t
      found (err e) none = Keeps-fail e
      found (err e) (some u) = by_id-Keeps _
