-- ===== src/Events/Rows.antt =====
-- The rows of ticket types after an edit and after a deletion.
use entra_api.Base.{
  ℕ, ◌≡◌, refl, inl, inr, false, none, some, List, [], ◌∷◌, ◌==◌, arith, ap, Bool-cases,
}
use entra_api.Base.External.{Floats}
use entra_api.Base.Formats.{Formats}
use entra_api.Platform.{TicketType}
use entra_api.Inventory.{find_ticket_type}
use entra_api.Events.Tables.{TypeColumns, with_columns, edit_type, drop_type}
use entra_api.Events.TicketTypes.{TicketTypeRequest, pg_text, pg_int4, parse_price, columns_of}

-- The row of the id is the request's, and the one of another id is the same.
pub record Replaced (floats : Floats) (formats : Formats) (req : TicketTypeRequest)
    (start end_date : ℕ) (t : TicketType) (id other : ℕ) (before after : List TicketType)
    : Type 0 where
  pub row : TicketType
  pub found : find_ticket_type id after ≡ some row
  pub same_id : row.id ≡ t.id
  pub same_event : row.event_id ≡ t.event_id
  pub same_sold : row.sold ≡ t.sold
  pub same_active : row.is_active ≡ t.is_active
  pub name : row.name ≡ req.name
  pub description : row.description ≡ pg_text req.description
  pub price : row.price ≡ floats.to_numeric (parse_price floats formats req.price)
  pub quantity : row.quantity ≡ req.quantity
  pub max_per_order : row.max_per_order ≡ pg_int4 req.max_per_order
  pub sale_start : row.sale_start ≡ some start
  pub sale_end : row.sale_end ≡ some end_date
  pub elsewhere : find_ticket_type other after ≡ find_ticket_type other before

-- The id has no row, and the one of another id is the same.
pub record Removed (id other : ℕ) (before after : List TicketType) : Type 0 where
  pub gone : find_ticket_type id after ≡ none
  pub elsewhere : find_ticket_type other after ≡ find_ticket_type other before

edit_elsewhere :
    (id other : ℕ) (c : TypeColumns) (ts : List TicketType)
    → (other == id) ≡ false
    → find_ticket_type other (edit_type id c ts) ≡ find_ticket_type other ts
unfolding find_ticket_type edit_type
edit_elsewhere id other c [] apart = refl
edit_elsewhere id other c (x ∷ xs) apart = ground (arith, apart, edit_elsewhere id other c xs apart)

find-edit :
    (id : ℕ) (c : TypeColumns) (t : TicketType) (ts : List TicketType)
    → find_ticket_type id ts ≡ some t
    → find_ticket_type id (edit_type id c ts) ≡ some (with_columns c t)
unfolding find_ticket_type edit_type
find-edit id c t [] e = absurd (ground (arith, e))
find-edit id c t (x ∷ xs) e = elim (Bool-cases (x.id == id)) [
  | inl hit ↦
      let same : x ≡ t = ground (arith, hit, e) in ground (arith, hit, ap (with_columns c) same)
  | inr miss ↦ ground (arith, miss, find-edit id c t xs (ground (arith, miss, e)))
]

pub edit_type-Replaced :
    (floats : Floats) (formats : Formats) (req : TicketTypeRequest) (start end_date : ℕ)
    (t : TicketType) (id other : ℕ) (ts : List TicketType)
    → find_ticket_type id ts ≡ some t
    → (other == id) ≡ false
    → Replaced floats formats req start end_date t id other ts
        (edit_type id (columns_of floats formats req start end_date) ts)
edit_type-Replaced floats formats req start end_date t id other ts there apart = record {
  row = with_columns (columns_of floats formats req start end_date) t;
  found = find-edit id (columns_of floats formats req start end_date) t ts there;
  same_id = refl;
  same_event = refl;
  same_sold = refl;
  same_active = refl;
  name = refl;
  description = refl;
  price = refl;
  quantity = refl;
  max_per_order = refl;
  sale_start = refl;
  sale_end = refl;
  elsewhere = edit_elsewhere id other (columns_of floats formats req start end_date) ts apart;
}

pub drop_type-Removed :
    (id other : ℕ) (ts : List TicketType)
    → (other == id) ≡ false
    → Removed id other ts (drop_type id ts)
unfolding find_ticket_type drop_type
drop_type-Removed id other [] apart = record { gone = refl; elsewhere = refl }
drop_type-Removed id other (x ∷ xs) apart =
    let rest = drop_type-Removed id other xs apart in
    record { gone = ground (arith, rest.gone); elsewhere = ground (arith, apart, rest.elsewhere) }
