-- ===== src/Tests/Shop.antt =====
-- A shop: an event with one ticket type of ten tickets, and its first orders.
use entra_api.Base.{ℕ, true, none, some, [], ◌∷◌}
use entra_api.Base.Int.{pos}
use entra_api.Platform.{Event, TicketType, Order, Platform}
use entra_api.Withdrawals.Tables.{Withdrawal, Payouts}

abbrev pub pending : ℕ → ℕ → Order
pending id user = record {
  id = id;
  user_id = user;
  event_id = 1;
  total_amount = pos 5000;
  status = "PENDING";
  expires_at = 900;
}

abbrev pub concert : Event
concert = record {
  id = 1;
  organizer_id = 0;
  title = "Concert";
  slug = "concert-1";
  start_date = 1000;
  status = "published";
  end_date = none;
}

abbrev pub standing : TicketType
standing = record {
  id = 2;
  event_id = 1;
  name = "Standing";
  description = none;
  price = pos 2500;
  max_per_order = none;
  quantity = pos 10;
  sold = pos 0;
  is_active = true;
  sale_start = none;
  sale_end = none;
}

-- Orders 3, 4 and 5 are pending; the second one waits, behind one that is gone.
abbrev pub shop : Platform
shop = record {
  env = record { now = 0; script = [] };
  events = concert ∷ [];
  ticket_types = standing ∷ [];
  orders = pending 3 1 ∷ pending 4 2 ∷ pending 5 3 ∷ [];
  items =
      record {
        order_id = 3;
        ticket_type_id = 2;
        quantity = pos 2;
        price = pos 5000;
        subtotal = pos 5000;
      }
      ∷ [];
  tickets = [];
  redis = record {
    stock = λ key. some (pos 10);
    idempotency = λ key. none;
    active = λ event. none;
    expires_at = λ event. none;
    waiting = λ event. "uuuuuuuu" ∷ "uuuuu" ∷ "uuuuuu" ∷ [];
    event_cache = λ key. none;
  };
  redis_on = true;
  client_on = true;
  log = [];
  next_id = 6;
}

-- The next call fails.
abbrev pub shaky : Platform
shaky = record shop { env = record { now = 0; script = record { fails = true; elapsed = 1 } ∷ [] } }

-- Order 3 holds the slot, and has timed out; orders 4 and 5 wait.
abbrev pub late_shop : Platform
late_shop = record shop {
  env = record { now = 500000000000; script = [] };
  redis = record shop.redis {
    active = λ event. some "uuuu";
    expires_at = λ event. some 400;
    waiting = λ event. "uuuuu" ∷ "uuuuuu" ∷ [];
  };
}

-- An event of another organizer beside the first one.
abbrev pub rival : Event
rival = record concert { id = 7; organizer_id = 3; slug = "rival-7" }

abbrev pub two_events : Platform
two_events = record shop { events = concert ∷ rival ∷ [] }

abbrev pub turned_down : Withdrawal
turned_down = record {
  id = 9;
  organizer_id = 0;
  amount = pos 500;
  bank_name = "B";
  account_number = "1";
  account_name = "N";
  status = "REJECTED";
  rejection_reason = some "why";
  notes = none;
  created_at = 0;
}

abbrev pub approved : Withdrawal
approved = record turned_down { status = "APPROVED"; rejection_reason = none }

-- One order has been paid; one withdrawal was rejected.
abbrev pub rich : Payouts
rich = record {
  shop = record shop {
    orders = record (pending 3 1) { status = "PAID"; total_amount = pos 9000000 } ∷ [];
  };
  withdrawals = turned_down ∷ [];
  pooled = true;
  fee = 5;
}
