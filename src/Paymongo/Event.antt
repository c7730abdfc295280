-- ===== src/Paymongo/Event.antt =====
-- PayMongo's JSON: a webhook's event, and the QR image in the gateway's answer
-- (apps/api/src/lib/paymongo.ts). `JSON.parse` has made the value. An order's id is the number that
-- `order_of` finds behind its text.
use zak_s_sizzling.Prelude.{
  ℕ, ◌+◌, Bool, true, Option, none, some, [], ◌∷◌, ◌++◌, if◌then◌else◌, is_some,
}
use zak_s_sizzling.Prelude.Text.{Text, text, text_eq, starts_with, decimal}
use zak_s_sizzling.Payments.Webhook.{WebhookEvent}

mutual
  pub data Json : Type 0 where
    null : Json
    boolean : Bool → Json
    number : ℕ → Json
    string : Text → Json
    array : Elements → Json
    object : Members → Json

  pub data Elements : Type 0 where
    nil : Elements
    item : Json → Elements → Elements

  pub data Members : Type 0 where
    end : Members
    member : Text → Json → Members → Members

abbrev pub or_nested : Option Text → Option Text → Option Text
or_nested none rest = rest
or_nested (some []) rest = rest
or_nested (some (c ∷ t)) rest = some (c ∷ t)

-- An entry: a text under the key is the answer; else a text that is found inside, if it is not
-- empty; else the entries after it.
abbrev pub in_entry : Bool → Json → Option Text → Option Text → Option Text
in_entry true (string t) nested rest = some t
in_entry _ v nested rest = or_nested nested rest

unfoldable mutual
  pub find_string : Text → Json → Option Text
  find_string key null = none
  find_string key (boolean b) = none
  find_string key (number n) = none
  find_string key (string t) = none
  find_string key (array es) = find_in_elements key 0 es
  find_string key (object ms) = find_in_members key ms

  pub find_in_elements : Text → ℕ → Elements → Option Text
  find_in_elements key i nil = none
  find_in_elements key i (item v es) =
      in_entry (text_eq (decimal i) key) v (find_string key v) (find_in_elements key (i + 1) es)

  pub find_in_members : Text → Members → Option Text
  find_in_members key end = none
  find_in_members key (member k v ms) =
      in_entry (text_eq k key) v (find_string key v) (find_in_members key ms)

unfoldable pub get_member : Text → Members → Option Json
get_member key end = none
get_member key (member k v ms) =
    let rest = get_member key ms in
    if is_some rest then rest else if text_eq k key then some v else none

-- `value.key`, of an object; a key that occurs twice has its last value.
abbrev pub get : Text → Json → Option Json
get key (object ms) = get_member key ms
get key _ = none

abbrev pub get_in : Text → Option Json → Option Json
get_in key none = none
get_in key (some v) = get key v

abbrev pub as_text : Option Json → Option Text
as_text (some (string t)) = some t
as_text _ = none

abbrev pub as_number : Option Json → Option ℕ
as_number (some (number n)) = some n
as_number _ = none

abbrev first_text : Option Text → Option Text → Option Text
first_text none b = b
first_text (some a) b = some a

abbrev pub event_of : Option ℕ → Json → Option Text → WebhookEvent
event_of order v type = record {
  type = elim type [ none ↦ [] | some t ↦ t ];
  order_id = order;
  payment_intent_id = as_text (get_in (text "payment_intent_id") (some v));
  amount_centavos = as_number (get_in (text "amount") (some v));
}

abbrev pub no_members : Json
no_members = object end

abbrev or_json : Option Json → Json
or_json none = no_members
or_json (some v) = v

abbrev found_order : (Text → Option ℕ) → Option Text → Option ℕ
found_order order_of none = none
found_order order_of (some t) = order_of t

-- A body without `data.attributes` throws.
unfoldable pub parse_webhook_event : (Text → Option ℕ) → Json → Option WebhookEvent
parse_webhook_event order_of json = elim (get_in (text "attributes") (get (text "data") json)) [
  | none ↦ none
  | some attributes ↦
      let resource = or_json (get_in (text "attributes") (get (text "data") attributes)) in
      let metadata = as_text (get_in (text "order_id") (get (text "metadata") resource)) in
      let order = first_text metadata (as_text (get (text "reference_number") resource)) in
      some (event_of (found_order order_of order) resource (as_text (get (text "type") attributes)))
]

abbrev find_in : Text → Option Json → Option Text
find_in key none = none
find_in key (some v) = find_string key v

-- The image of an attached payment method, as an address; without one there is no code.
unfoldable pub qr_image : Option Json → Option Text
unfolding find_string
qr_image next_action = elim (find_in (text "image_url") next_action) [
  | none ↦ none
  | some [] ↦ none
  | some (c ∷ t) ↦ some (
      if starts_with (c ∷ t) (text "data:")
      then c ∷ t
      else text "data:image/png;base64," ++ (c ∷ t))
]
