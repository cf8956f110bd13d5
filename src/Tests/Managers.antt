-- ===== src/Tests/Managers.antt =====
-- Organizers: their events, ticket types and withdrawals.
use entra_api.Base.{◌≡◌, ◌↔◌, refl, arith}
use entra_api.Base.Int.{pos, ◌≤ℤ◌, ◌+ℤ◌}
use entra_api.Base.Samples.{sample_uuids, sample_floats, sample_formats}
use entra_api.Platform.{external}
use entra_api.Inventory.Bounds.{SoldWithin}
use entra_api.Events.{EventRequest, update_event, delete_event}
use entra_api.Events.Tables.{edit_type, drop_type}
use entra_api.Events.TicketTypes.{
  number, TicketTypeRequest, create_ticket_type, update_ticket_type, delete_ticket_type,
}
use entra_api.Events.Ownership.{only_owners_change_events}
use entra_api.Events.Strangers.{Refused, strangers-Refused, own_event_opens_all}
use entra_api.Events.Rows.{Replaced, Removed}
use entra_api.Events.Quantities.{quantity_decides}
use entra_api.Withdrawals.Tables.{Withdrawal, Payouts, is_deducted, sum_of}
use entra_api.Withdrawals.{
  CreateWithdrawalRequest, request_withdrawal, admin_update_withdrawal_status,
}
use entra_api.Withdrawals.Reference.{payout, requested, request-payout}
use entra_api.Withdrawals.Deductions.{Granted, share, grant_deducts, status_moves_deductions}
use entra_api.Withdrawals.Atomic.{AllOrNothing, request-AllOrNothing}
use entra_api.Tests.Shop.{
  shop, shaky, concert, standing, rival, two_events, turned_down, approved, rich,
}

abbrev new_title : EventRequest
new_title = record { title = "Party"; start_date = "uu"; end_date = "uuu"; status = "published" }

only_owners_change_events_example :
    ((update_event sample_uuids sample_formats "uu" "uuuu" new_title two_events).1.events
      ≡ two_events.events)
    × ((update_event sample_uuids sample_formats "uu" "uuuu" new_title two_events).1.ticket_types
        ≡ two_events.ticket_types)
    × ((delete_event sample_uuids "uu" "uuuu" two_events).1.events ≡ two_events.events)
    × ((delete_event sample_uuids "uu" "uuuu" two_events).1.ticket_types ≡ two_events.ticket_types)
unfolding entra_api.Events.Tables.find_owned
only_owners_change_events_example =
    only_owners_change_events sample_uuids sample_formats "uu" "uuuu" 1 3 new_title two_events refl
      refl refl

abbrev fewer : TicketTypeRequest
fewer = record {
  name = "Standing";
  description = "";
  price = number 30;
  quantity = pos 4;
  max_per_order = pos 2;
  sale_start = "u";
  sale_end = "uuuu";
}

strangers-Refused_example :
    Refused
      (external shaky).1
      (create_ticket_type sample_uuids sample_floats sample_formats "uuuu" "uu" fewer shaky)
    × Refused
        (external shaky).1
        (update_ticket_type sample_uuids sample_floats sample_formats "uuuu" "uu" "uuu" fewer shaky)
    × Refused (external shaky).1 (delete_ticket_type sample_uuids "uuuu" "uu" "uuu" shaky)
unfolding entra_api.Inventory.find_event
strangers-Refused_example =
    strangers-Refused sample_uuids sample_floats sample_formats "uuuu" "uu" "uuu" 3 1 2 fewer
      concert shaky refl refl refl refl (λ p. omega arith)

-- A second event, of another organizer, who takes hold of the ticket type of the first one.
own_event_opens_all_example :
    Replaced sample_floats sample_formats fewer 0 3 standing 2 9 two_events.ticket_types
      (update_ticket_type sample_uuids sample_floats sample_formats "uuuu" "uuuuuuuu" "uuu" fewer
        two_events).1.ticket_types
    × Removed 2 9 two_events.ticket_types
        (delete_ticket_type sample_uuids "uuuu" "uuuuuuuu" "uuu" two_events).1.ticket_types
unfolding entra_api.Inventory.find_event entra_api.Inventory.find_ticket_type
own_event_opens_all_example =
    own_event_opens_all sample_uuids sample_floats sample_formats "uuuu" "uuuuuuuu" "uuu" 3 7 2
      fewer rival two_events refl refl refl standing 0 3 9 refl refl refl refl refl refl refl

quantity_decides_example :
    SoldWithin
      (update_ticket_type sample_uuids sample_floats sample_formats "u" "uu" "uuu" fewer shop).1
    ↔ (pos 0 ≤ℤ pos 4)
unfolding entra_api.Inventory.find_event entra_api.Inventory.find_ticket_type
quantity_decides_example =
    quantity_decides sample_uuids sample_floats sample_formats "u" "uu" "uuu" 0 1 2 fewer concert
      shop standing 0 3 refl refl refl refl refl refl refl refl refl
      (record { rows = ((omega arith, omega arith), tt) })

abbrev wish : CreateWithdrawalRequest
wish = record {
  amount = 12000;
  bank_name = "B";
  account_number = "1";
  account_name = "N";
  notes = "";
}

request-payout_example :
    request_withdrawal sample_uuids sample_floats "u" wish rich ≡ payout sample_floats 0 wish rich
request-payout_example = request-payout sample_uuids sample_floats "u" 0 wish rich refl refl refl

grant_deducts_example :
    Granted sample_floats 0 wish rich
      (request_withdrawal sample_uuids sample_floats "u" wish rich).1
      (requested sample_floats 0 wish rich)
unfolding request_withdrawal entra_api.Withdrawals.request_in_transaction
    entra_api.Withdrawals.Tables.call_out entra_api.Withdrawals.rest_of_transaction
    entra_api.Withdrawals.get_dashboard_stats entra_api.Withdrawals.fetch_organizer_event_ids
    entra_api.Withdrawals.id_texts entra_api.Withdrawals.events_of
    entra_api.Withdrawals.Tables.get_organizer_stats
    entra_api.Withdrawals.Tables.get_withdrawn_summary entra_api.Withdrawals.Tables.revenue
    entra_api.Withdrawals.Tables.settled_of entra_api.Withdrawals.Tables.is_one_of
    entra_api.Withdrawals.parse_ids ◌+ℤ◌ sum_of entra_api.Withdrawals.create_pending
    entra_api.Withdrawals.Tables.create_withdrawal entra_api.Withdrawals.Tables.insert_withdrawal
    entra_api.Withdrawals.Tables.commit
grant_deducts_example =
    grant_deducts sample_uuids sample_floats "u" 0 wish (requested sample_floats 0 wish rich) rich
      refl refl refl refl

request-AllOrNothing_example :
    AllOrNothing 0 rich.withdrawals (request_withdrawal sample_uuids sample_floats "u" wish rich)
request-AllOrNothing_example = request-AllOrNothing sample_uuids sample_floats "u" 0 wish rich refl

status_moves_deductions_example :
    (approved.status ≡ "APPROVED")
    × (sum_of 0 is_deducted
            (admin_update_withdrawal_status sample_uuids "uuuuuuuuuu" "APPROVED" ""
              rich).1.withdrawals
          +ℤ share 0 is_deducted turned_down
        ≡ sum_of 0 is_deducted rich.withdrawals +ℤ share 0 is_deducted approved)
unfolding entra_api.Withdrawals.Tables.find_withdrawal admin_update_withdrawal_status
    entra_api.Withdrawals.Tables.update_withdrawal_status entra_api.Withdrawals.Tables.call_out
status_moves_deductions_example =
    status_moves_deductions sample_uuids "uuuuuuuuuu" "APPROVED" "" 9 0 turned_down approved rich
      refl refl refl
