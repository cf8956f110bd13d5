-- ===== src/Notifications/Ids.antt =====
-- The order ids that Midtrans gets from `CreatePaymentToken`, and what a notification makes of them.
use Prim.Native.Char.{code}
use entra_api.Base.{
  ℕ, String, ◌≡◌, refl, Bool, true, not, ◌&&◌, some, ◌==◌, arith, if◌then◌else◌, Bool-cases, inl,
  inr, ap, ◌∙◌,
}
use entra_api.Base.External.{Uuids}
use entra_api.Notifications.{is_underscore, first_part, rest_parts, order_part}

-- `strings.ReplaceAll(s, "-", "")`
unfoldable pub without_dashes : String → String
without_dashes String.[] = String.[]
without_dashes (String.◌∷◌ c s) =
    if code c == 45 then without_dashes s else String.◌∷◌ c (without_dashes s)

-- `s + "_" + t`
unfoldable pub join_underscore : String → String → String
join_underscore String.[] t = String.◌∷◌ "_" t
join_underscore (String.◌∷◌ c s) t = String.◌∷◌ c (join_underscore s t)

-- `fmt.Sprintf("ORD_%s_%d", compactUUID, time.Now().Unix())`, with the time as a text.
unfoldable pub midtrans_order_id : Uuids → ℕ → String → String
midtrans_order_id uuids id time =
    join_underscore "ORD" (join_underscore (without_dashes (uuids.to_string id)) time)

-- No character of the text is an underscore.
unfoldable pub is_plain : String → Bool
is_plain String.[] = true
is_plain (String.◌∷◌ c s) = not (is_underscore (code c)) && is_plain s

pub first_part-join_underscore :
    (s t : String) → is_plain s ≡ true → first_part (join_underscore s t) ≡ s
unfolding first_part join_underscore is_plain
first_part-join_underscore String.[] t h = refl
first_part-join_underscore (String.◌∷◌ c s) t h = elim (Bool-cases (is_underscore (code c))) [
  | inl bad ↦ absurd (ground (arith, bad, h))
  | inr good ↦
      rw good (ap (String.◌∷◌ c) (first_part-join_underscore s t (ground (arith, good, h))))
]

is_plain-without_dashes : (s : String) → is_plain s ≡ true → is_plain (without_dashes s) ≡ true
unfolding without_dashes is_plain
is_plain-without_dashes String.[] h = refl
is_plain-without_dashes (String.◌∷◌ c s) h = ground (arith, is_plain-without_dashes s)

-- For a UUID whose text has no underscore and that `Parse` also reads without its dashes, as
-- google/uuid does, the id that a notification of Midtrans carries leads back to the order that the
-- payment token was made for, at every time.
pub midtrans_order_id_roundtrip :
    (uuids : Uuids) (id : ℕ) (time : String)
    → is_plain (uuids.to_string id) ≡ true
    → uuids.parse (without_dashes (uuids.to_string id)) ≡ some id
    → uuids.parse (order_part (midtrans_order_id uuids id time)) ≡ some id
unfolding midtrans_order_id order_part join_underscore rest_parts first_part
midtrans_order_id_roundtrip uuids id time plain reads =
    ap uuids.parse (
      first_part-join_underscore (without_dashes (uuids.to_string id)) time
        (is_plain-without_dashes (uuids.to_string id) plain))
    ∙ reads
