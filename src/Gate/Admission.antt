-- ===== src/Gate/Admission.antt =====
-- What a successful scan has done: exactly one way in, for a ticket that was not used before.
use entra_api.Base.{
  ℕ, String, ◌≡◌, refl, true, false, Option, none, some, List, [], ◌∷◌, arith, Bool-cases, inl, inr,
}
use entra_api.Base.Go.{ok, err, Result, pure, or_fail, ◌>>=◌}
use entra_api.Base.Keeps.{
  Keeps, bind_post, Ensures, Ensures-bind, Keeps-pure, Keeps-attempt, Keeps-or_fail, Keeps-fail_if,
}
use entra_api.Base.External.{Uuids}
use entra_api.Gate.Tickets.{
  LocalTicket, GateService, external, update_row, is_spent, find_by_id, update_local_ticket_status,
}
use entra_api.Gate.Spent.{
  spent_at, spent_at-set_status, spent_at-set_status_self, external-Keeps, sync-Keeps,
  check_remote-Keeps, find_ticket-Keeps,
}
use entra_api.Gate.{
  RemoteTicket, err_not_found, err_other_event, err_used, is_of_other_event, check_remote,
  publish_scanned, admit, scan_ticket, GateCall, sync, scan, handle, run_calls,
}

-- Every ticket used in the first state is used in the second.
pub record Grew (s₀ s : GateService) : Type 0 where
  pub stays : (id : ℕ) → spent_at id s₀.tickets ≡ true → spent_at id s.tickets ≡ true

Grew-grow :
    (s₀ s s' : GateService)
    → s'.published ≡ s.published
    → ((id : ℕ) → spent_at id s.tickets ≡ true → spent_at id s'.tickets ≡ true)
    → Grew s₀ s
    → Grew s₀ s'
Grew-grow s₀ s s' p k g = record { stays = λ id h. k id (g.stays id h) }

-- The call failed, or let a ticket in that was unused in the first state and is used now.
abbrev Admits : {A : Type 0} → GateService → Result A × GateService → Type 0
Admits s₀ (err e, s') = Grew s₀ s'
Admits s₀ (ok _, s') =
    Grew s₀ s' × ((id : ℕ) × (spent_at id s₀.tickets ≡ false) × (spent_at id s'.tickets ≡ true))

unspent_before :
    (id : ℕ) (s₀ s : GateService)
    → Grew s₀ s
    → spent_at id s.tickets ≡ false
    → spent_at id s₀.tickets ≡ false
unspent_before id s₀ s g h = ground (arith, g.stays id)

update_row-Admits :
    (id : ℕ) (o : Option LocalTicket) (s₀ s : GateService)
    → find_by_id (some id) s.tickets ≡ o
    → Grew s₀ s
    → Admits s₀ (update_row (some id) "CHECKED_IN" o s)
unfolding update_row
update_row-Admits id none s₀ s e g = g
update_row-Admits id (some r) s₀ s e g = elim (Bool-cases (is_spent r.status)) [
  | inl used ↦ rw used g
  | inr new ↦ rw new (
    record { stays = λ i h. spent_at-set_status i (some id) "CHECKED_IN" s.tickets (g.stays i h) },
    (id, unspent_before id s₀ s g (rw e new), spent_at-set_status_self id r s.tickets e),
  )
]

update-Admits :
    (id : ℕ) (s₀ s : GateService)
    → Grew s₀ s
    → Admits s₀ (update_local_ticket_status (some id) "CHECKED_IN" s)
unfolding update_local_ticket_status
update-Admits id s₀ s g =
    bind_post (Grew s₀) (Admits s₀) (external s) _
      ((external-Keeps (Grew s₀) (Grew-grow s₀)).run s g) (λ e s' h. h)
      (λ _ s' h. update_row-Admits id _ s₀ s' refl h)

carry_over :
    {A : Type 0} (s₀ s : GateService) (a : A) (r : Result (Unit {0}) × GateService)
    → r.0 ≡ ok tt
    → r.1.tickets ≡ s.tickets
    → Admits s₀ (ok a, s)
    → Admits s₀ r
carry_over s₀ s a (ok _, s') e k (g, (id, before, after)) =
    (record { stays = λ i h. rw k (g.stays i h) }, (id, before, rw k after))
carry_over s₀ s a (err _, s') e k h = cc

module _ (uuids : Uuids) where
  publish_same :
      (t : LocalTicket) (s : GateService) → (publish_scanned uuids t s).1.tickets ≡ s.tickets
  unfolding publish_scanned external
  publish_same t s = ground arith

  publish_ok : (t : LocalTicket) (s : GateService) → (publish_scanned uuids t s).0 ≡ ok tt
  unfolding publish_scanned external
  publish_ok t s = ground arith

  publish-Admits :
      (s₀ : GateService) (r : Result LocalTicket × GateService)
      → Admits s₀ r
      → Admits s₀ ((◌>>=◌ (or_fail (λ _. r) err_used) (publish_scanned uuids)) r.1)
  publish-Admits s₀ (err e, s) h = h
  publish-Admits s₀ (ok u, s) h =
      carry_over s₀ s u (publish_scanned uuids u s) (publish_ok u s) (publish_same u s) h

  admit-Admits : (t : LocalTicket) (s₀ s : GateService) → Grew s₀ s → Admits s₀ (admit uuids t s)
  unfolding admit
  admit-Admits t s₀ s g = publish-Admits s₀ _ (update-Admits t.id s₀ s g)

  scan-Admits :
      (answer : Option RemoteTicket) (code event_id : String) (s₀ : GateService)
      → Ensures (Grew s₀) (Admits s₀) (scan_ticket uuids answer code event_id)
  unfolding scan_ticket
  scan-Admits answer code event_id s₀ =
      Ensures-bind (Keeps-attempt (external-Keeps (Grew s₀) (Grew-grow s₀))) (λ e s h. h)
        λ r.
          Ensures-bind (checked r) (λ e s h. h)
            λ _.
              Ensures-bind
                (Keeps-or_fail err_not_found
                  (find_ticket-Keeps (Grew s₀) (Grew-grow s₀) uuids code))
                (λ e s h. h)
                λ t.
                  Ensures-bind (Keeps-fail_if (is_of_other_event uuids event_id t) err_other_event)
                    (λ e s h. h)
                    λ _.
                      Ensures-bind (Keeps-fail_if (is_spent t.status) err_used) (λ e s h. h)
                        λ _. record { run = λ s g. admit-Admits t s₀ s g }
    where
      checked :
          (r : Result (Unit {0}))
          → Keeps
              (Grew s₀)
              (elim r [ err _ ↦ pure tt | ok _ ↦ check_remote uuids answer code event_id ])
      checked (ok _) = check_remote-Keeps (Grew s₀) (Grew-grow s₀) uuids answer code event_id
      checked (err _) = Keeps-pure tt

  Admits-ok :
      (s₀ : GateService) (r : Result (Unit {0}) × GateService)
      → Admits s₀ r
      → r.0 ≡ ok tt
      → (id : ℕ) × (spent_at id s₀.tickets ≡ false) × (spent_at id r.1.tickets ≡ true)
  Admits-ok s₀ (ok _, s) h e = h.1
  Admits-ok s₀ (err _, s) h e = cc

  Admits-Grew : (s₀ : GateService) (r : Result (Unit {0}) × GateService) → Admits s₀ r → Grew s₀ r.1
  Admits-Grew s₀ (ok _, s) h = h.0
  Admits-Grew s₀ (err _, s) h = h

  -- A scan that succeeds has used a ticket that was not used before the scan, whatever the ticket
  -- service answered and whichever calls failed on the way.
  pub scan_uses_fresh_ticket :
      (answer : Option RemoteTicket) (code event_id : String) (s : GateService)
      → (scan_ticket uuids answer code event_id s).0 ≡ ok tt
      → (id : ℕ) × (spent_at id s.tickets ≡ false)
        × (spent_at id (scan_ticket uuids answer code event_id s).1.tickets ≡ true)
  scan_uses_fresh_ticket answer code event_id s =
      Admits-ok s _ ((scan-Admits answer code event_id s).run s (record { stays = λ id h. h }))

  handle-Grew : (c : GateCall) (s₀ s : GateService) → Grew s₀ s → Grew s₀ (handle uuids c s).1
  unfolding handle
  handle-Grew (sync id event_id code status) s₀ s g =
      (sync-Keeps (Grew s₀) (Grew-grow s₀) id event_id code status).run s g
  handle-Grew (scan answer code event_id) s₀ s g =
      Admits-Grew s₀ _ ((scan-Admits answer code event_id s₀).run s g)

  run_calls-Grew :
      (cs : List GateCall) (s₀ s : GateService) → Grew s₀ s → Grew s₀ (run_calls uuids cs s)
  unfolding run_calls
  run_calls-Grew [] s₀ s g = g
  run_calls-Grew (c ∷ cs) s₀ s g = run_calls-Grew cs s₀ _ (handle-Grew c s₀ s g)

  -- A used ticket stays used in every history of ticket events and scans: no event from the ticket
  -- service, also one that reports the ticket as active, opens it again.
  pub used_stays_used :
      (cs : List GateCall) (s : GateService) (id : ℕ)
      → spent_at id s.tickets ≡ true
      → spent_at id (run_calls uuids cs s).tickets ≡ true
  used_stays_used cs s id = (run_calls-Grew cs s s (record { stays = λ i h. h })).stays id
