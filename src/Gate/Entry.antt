-- ===== src/Gate/Entry.antt =====
-- Double-entry prevention: what `ScanTicket` and `SyncTicket` keep, whatever the ticket service
-- answers and whatever calls fail.
use entra_api.Base.{
  ℕ, String, ◌+◌, ◌≤◌, ◌≡◌, refl, ap, true, Option, none, some, List, ◌++◌, [], ◌∷◌, arith, ◌==◌,
  str_eq, eq_iff, if◌then◌else◌, Bool-cases, inl, inr,
}
use entra_api.Base.Go.{ok, err, Result, pure, or_fail, ◌>>=◌}
use entra_api.Base.Keeps.{
  Keeps, bind_post, Keeps-pure, Keeps-fail_if, Keeps-attempt, Keeps-or_fail, Keeps-bind,
}
use entra_api.Base.External.{Uuids}
use entra_api.Gate.Tickets.{
  LocalTicket, Scanned, GateService, external, update_row, is_spent, find_by_id,
  update_local_ticket_status,
}
use entra_api.Gate.Spent.{
  spent_at, spent_at-set_status, spent_at-set_status_self, find_by_id-id, external-Keeps,
  sync-Keeps, check_remote-Keeps, find_ticket-Keeps,
}
use entra_api.Gate.{
  RemoteTicket, err_not_found, err_other_event, err_used, is_of_other_event, check_remote,
  publish_scanned, admit, scan_ticket, GateCall, sync, scan, handle, run_calls,
}

module _ (uuids : Uuids) where
  to_string-injective : (i j : ℕ) → uuids.to_string i ≡ uuids.to_string j → i ≡ j
  to_string-injective i j h =
      cc (uuids.parse-to_string i, uuids.parse-to_string j, ap uuids.parse h)

  -- How many messages report the ticket as scanned.
  abbrev pub scans_of : ℕ → List Scanned → ℕ
  scans_of id [] = 0
  scans_of id (m ∷ ms) = (if str_eq m.ticket_id (uuids.to_string id) then 1 else 0) + scans_of id ms

  scans_of-append :
      (id : ℕ) (m : Scanned) (ms : List Scanned)
      → scans_of id (ms ++ m ∷ [])
        ≡ scans_of id ms + (if str_eq m.ticket_id (uuids.to_string id) then 1 else 0)
  scans_of-append id m [] = ground arith
  scans_of-append id m (x ∷ ms) = ground (arith, scans_of-append id m ms)

  -- Each ticket is reported once if it has been used for entry, and never otherwise.
  pub record EntersOnce (s : GateService) : Type 0 where
    pub once : (id : ℕ) → scans_of id s.published ≤ (if spent_at id s.tickets then 1 else 0)

  EntersOnce-keep :
      (s s' : GateService)
      → s'.published ≡ s.published
      → ((id : ℕ) → spent_at id s.tickets ≡ true → spent_at id s'.tickets ≡ true)
      → EntersOnce s
      → EntersOnce s'
  EntersOnce-keep s s' p k v = record { once = λ id. ground (arith, v.once id, p, k id) }

  publish_run :
      (u : LocalTicket) (s : GateService)
      → ((i : ℕ)
          → scans_of i s.published + (if u.id == i then 1 else 0)
            ≤ (if spent_at i s.tickets then 1 else 0))
      → EntersOnce (publish_scanned uuids u s).1
  unfolding publish_scanned external
  publish_run u s h = record {
    once = λ i. ground (
      arith,
      h i,
      scans_of-append i (record { ticket_id = uuids.to_string u.id; ticket_code = u.ticket_code })
          s.published,
      to_string-injective u.id i,
      eq_iff (uuids.to_string u.id) (uuids.to_string i),
    );
  }

  -- What is known where the update has succeeded: it found the ticket unspent.
  abbrev Admitted : Result LocalTicket × GateService → Type 0
  Admitted (err e, s') = EntersOnce s'
  Admitted (ok u, s') =
      (i : ℕ)
      → scans_of i s'.published + (if u.id == i then 1 else 0)
        ≤ (if spent_at i s'.tickets then 1 else 0)

  update_row-Admitted :
      (id : ℕ) (o : Option LocalTicket) (s : GateService)
      → find_by_id (some id) s.tickets ≡ o
      → EntersOnce s
      → Admitted (update_row (some id) "CHECKED_IN" o s)
  unfolding update_row
  update_row-Admitted id none s e v = v
  update_row-Admitted id (some r) s e v = elim (Bool-cases (is_spent r.status)) [
    | inl used ↦ rw used v
    | inr new ↦ rw new λ i. ground (
      arith,
      v.once i,
      find_by_id-id id r s.tickets e,
      spent_at-set_status i (some id) "CHECKED_IN" s.tickets,
      spent_at-set_status_self id r s.tickets e,
    )
  ]

  update-Admitted :
      (id : ℕ) (s : GateService)
      → EntersOnce s
      → Admitted (update_local_ticket_status (some id) "CHECKED_IN" s)
  unfolding update_local_ticket_status
  update-Admitted id s v =
      bind_post EntersOnce Admitted (external s) _
        ((external-Keeps EntersOnce EntersOnce-keep).run s v) (λ e s' h. h)
        (λ _ s' h. update_row-Admitted id _ s' refl h)

  Admitted-run :
      (r : Result LocalTicket × GateService)
      → Admitted r
      → EntersOnce ((◌>>=◌ (or_fail (λ _. r) err_used) (publish_scanned uuids)) r.1).1
  Admitted-run (err e, s') h = h
  Admitted-run (ok u, s') h = publish_run u s' h

  admit-EntersOnce : (t : LocalTicket) → Keeps EntersOnce (admit uuids t)
  unfolding admit
  admit-EntersOnce t = record { run = λ s v. Admitted-run _ (update-Admitted t.id s v) }

  scan-EntersOnce :
      (answer : Option RemoteTicket) (code event_id : String)
      → Keeps EntersOnce (scan_ticket uuids answer code event_id)
  unfolding scan_ticket
  scan-EntersOnce answer code event_id =
      Keeps-bind (Keeps-attempt (external-Keeps EntersOnce EntersOnce-keep)) λ r.
        Keeps-bind (checked r) λ _.
          Keeps-bind
            (Keeps-or_fail err_not_found (find_ticket-Keeps EntersOnce EntersOnce-keep uuids code))
            λ t.
              Keeps-bind (Keeps-fail_if (is_of_other_event uuids event_id t) err_other_event)
                λ _. Keeps-bind (Keeps-fail_if (is_spent t.status) err_used) λ _. admit-EntersOnce t
    where
      checked :
          (r : Result (Unit {0}))
          → Keeps EntersOnce
              (elim r [ err _ ↦ pure tt | ok _ ↦ check_remote uuids answer code event_id ])
      checked (ok _) = check_remote-Keeps EntersOnce EntersOnce-keep uuids answer code event_id
      checked (err _) = Keeps-pure tt

  -- Every call, whatever it is sent and whichever of its external calls fail, keeps the
  -- correspondence between the tickets used for entry and the messages on `ticket.scanned`: at most
  -- one message for a used ticket, and none for any other.
  pub handle-EntersOnce : (c : GateCall) → Keeps EntersOnce (handle uuids c)
  unfolding handle
  handle-EntersOnce (sync id event_id code status) =
      sync-Keeps EntersOnce EntersOnce-keep id event_id code status
  handle-EntersOnce (scan answer code event_id) = scan-EntersOnce answer code event_id

  run_calls-EntersOnce :
      (cs : List GateCall) (s : GateService) → EntersOnce s → EntersOnce (run_calls uuids cs s)
  unfolding run_calls
  run_calls-EntersOnce [] s v = v
  run_calls-EntersOnce (c ∷ cs) s v = run_calls-EntersOnce cs _ ((handle-EntersOnce c).run s v)

  -- In any history of syncs and scans that starts before anything was scanned, whatever the ticket
  -- service answers and whichever calls fail, each ticket is reported as scanned at most once.
  pub scanned_at_most_once :
      (cs : List GateCall) (s : GateService) (id : ℕ)
      → s.published ≡ []
      → scans_of id (run_calls uuids cs s).published ≤ 1
  scanned_at_most_once cs s id h =
      ground
        (arith, (run_calls-EntersOnce cs s (record { once = λ i. rw h (ground arith) })).once id)
