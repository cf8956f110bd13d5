-- ===== src/Scans/Reported.antt =====
-- A ticket that was scanned at one gate, at another one.
use entra_api.Base.{
  Option, none, sym, ℕ, String, ◌≡◌, true, false, some, List, [], ◌∷◌, ◌++◌, ◌==◌, arith, str_eq,
  Bool-cases, inl, inr, ap, eq_iff, eq_refl, subst,
}
use entra_api.Base.Go.{Outcome, Result, ok, err}
use entra_api.Base.External.{Uuids}
use entra_api.Platform.{Ticket, Platform, external}
use entra_api.Platform.Calm.{calm}
use entra_api.Gate.{
  RemoteTicket, sync_ticket, check_remote, find_ticket, scan_ticket, err_used, or_default,
  parse_or_nil, pg_uuid_from_uuid,
}
use entra_api.Gate.Tickets.{
  LocalTicket, GateService, external as call_out, find_by_code, is_taken, insert_row,
  create_local_ticket, get_local_ticket_by_code,
}
use entra_api.Scans.{
  find_ticket_by_code, get_ticket_by_code, get_ticket_row_by_code, put_ticket_status,
  update_ticket_status, handle_scanned, remote_of, get_ticket_by_code_internal,
}

find-put :
    (code : String) (t : Ticket) (ts : List Ticket)
    → find_ticket_by_code code ts ≡ some t
    → find_ticket_by_code code (put_ticket_status t.id "USED" ts)
      ≡ some (record t { status = "USED" })
unfolding find_ticket_by_code put_ticket_status
find-put code t [] h = absurd (ground (arith, h))
find-put code t (x ∷ xs) h = elim (Bool-cases (str_eq x.ticket_code code)) [
  | inl hit ↦
      let same : x ≡ t = ground (arith, hit, h) in
      ground
        (arith, hit, ap (λ x. x.id) same, ap (λ (x : Ticket). record x { status = "USED" }) same)
  | inr miss ↦
      let rest = find-put code t xs (ground (arith, miss, h)) in
      elim (Bool-cases (x.id == t.id)) [
        | inl same ↦ ground (arith, same, miss, rest)
        | inr other ↦ ground (arith, other, miss, rest)
      ]
]

find-code :
    (code : String) (t : Ticket) (ts : List Ticket)
    → find_ticket_by_code code ts ≡ some t
    → str_eq t.ticket_code code ≡ true
unfolding find_ticket_by_code
find-code code t [] h = absurd (ground (arith, h))
find-code code t (x ∷ xs) h = elim (Bool-cases (str_eq x.ticket_code code)) [
  | inl hit ↦
      let same : x ≡ t = ground (arith, hit, h) in
      subst (λ (y : Ticket). str_eq y.ticket_code code ≡ true) same hit
  | inr miss ↦ find-code code t xs (ground (arith, miss, h))
]

-- A new row of a gate is found by its code.
find-new :
    (id : ℕ) (code : String) (t : LocalTicket) (ts : List LocalTicket)
    → is_taken id code ts ≡ false
    → str_eq t.ticket_code code ≡ true
    → find_by_code code (ts ++ t ∷ []) ≡ some t
unfolding find_by_code is_taken
find-new id code t [] free e = ground (arith, e)
find-new id code t (x ∷ xs) free e = ground (arith, e, free, find-new id code t xs)

module _ (uuids : Uuids) where
  -- The answer about a ticket whose scan has been reported.
  answer :
      (code : String) (t : Ticket) (s : Platform)
      → s.env.script ≡ []
      → find_ticket_by_code code s.tickets ≡ some t
      → (get_ticket_by_code_internal uuids code (handle_scanned code s).1).0
        ≡ ok (some (remote_of uuids (record t { status = "USED" })))
  unfolding get_ticket_by_code_internal handle_scanned get_ticket_by_code get_ticket_row_by_code
      update_ticket_status external
  answer code t s quiet found =
      calm
        (λ s.
          find_ticket_by_code code s.tickets ≡ some t
          → (get_ticket_by_code_internal uuids code (handle_scanned code s).1).0
            ≡ ok (some (remote_of uuids (record t { status = "USED" }))))
        s quiet (λ found. ground (arith, found, find-put code t s.tickets found)) found

  abbrev with_script : List Outcome → GateService → GateService
  with_script script g = record g { env = record { now = g.env.now; script = script } }

  -- A gate that does not have the ticket takes it over as used.
  refuses :
      (code : String) (t : Ticket) (g : GateService)
      → str_eq t.ticket_code code ≡ true
      → str_eq (uuids.to_string t.id) "" ≡ false
      → (t.id == 0) ≡ false
      → is_taken t.id code g.tickets ≡ false
      → (scan_ticket uuids
          (some (remote_of uuids (record t { status = "USED" })))
          code
          (uuids.to_string t.event_id)
          (with_script [] g)).0
        ≡ err err_used
  unfolding scan_ticket check_remote sync_ticket find_ticket call_out create_local_ticket insert_row
      get_local_ticket_by_code
  refuses code t g coded named real free =
      let kept : or_default t.ticket_code code ≡ code =
        ground (arith, coded, eq_iff t.ticket_code code) in
      let row : LocalTicket = record {
        id = t.id;
        event_id = pg_uuid_from_uuid (parse_or_nil uuids (uuids.to_string t.event_id));
        ticket_code = or_default t.ticket_code code;
        status = "USED";
      } in
      ground (
        arith,
        named,
        real,
        free,
        kept,
        uuids.parse-to_string t.id,
        uuids.parse-to_string t.event_id,
        eq_refl (uuids.to_string t.event_id),
        find-new t.id code row g.tickets free (ground (arith, kept, eq_refl code)),
      )

  -- What a gate makes of the answer of the ticket service.
  abbrev scan_with :
      Result (Option RemoteTicket) → GateService → String → String → Result (Unit {0})
  scan_with (ok remote) g code event_id = (scan_ticket uuids remote code event_id g).0
  scan_with (err _) g code event_id = (scan_ticket uuids none code event_id g).0

  abbrev pub scan_at : Platform → GateService → String → String → Result (Unit {0})
  scan_at s g code event_id = scan_with (get_ticket_by_code_internal uuids code s).0 g code event_id

  -- Where no call fails, once the ticket service has read the report of a ticket's scan, every gate
  -- that does not have the ticket yet refuses its code as used. The ticket's id is not the nil UUID,
  -- whose text is not empty, and the gate stands at the ticket's event.
  pub refused_at_other_gates :
      (code : String) (t : Ticket) (s : Platform) (g : GateService)
      → s.env.script ≡ []
      → g.env.script ≡ []
      → find_ticket_by_code code s.tickets ≡ some t
      → str_eq (uuids.to_string t.id) "" ≡ false
      → (t.id == 0) ≡ false
      → is_taken t.id code g.tickets ≡ false
      → scan_at (handle_scanned code s).1 g code (uuids.to_string t.event_id) ≡ err err_used
  refused_at_other_gates code t s g quiet calm_gate found named real free =
      let told = answer code t s quiet found in
      let refused = refuses code t g (find-code code t s.tickets found) named real free in
      subst (λ r. scan_with r g code (uuids.to_string t.event_id) ≡ err err_used) (sym told)
        (subst
          (λ script.
            (scan_ticket uuids (some (remote_of uuids (record t { status = "USED" }))) code
              (uuids.to_string t.event_id) (with_script script g)).0
            ≡ err err_used)
          (sym calm_gate) refused)
