-- ===== src/Json/Canonical.antt =====
-- packages/eta-core/src/canonical-serialize.ts, and its copy for receipts in
-- packages/eta-core/src/receipts/receipt-canonical.ts: the canonical text whose digest is signed.
use einvoice.Prelude.{
  ℕ, ◌+◌, ◌/◌, ◌%◌, Bool, true, false, ◌&&◌, ◌||◌, [], ◌∷◌, ◌++◌, Text, lit, Unicode, to_upper, ltb,
  leb, ◌==◌, if◌then◌else◌,
}
use einvoice.Money.{Numerics}
use einvoice.Json.{
  object_constructor, object_constructor_text, Json, null, bool, num, str, arr, obj, Items, nil,
  cons, Fields, end, field,
}

abbrev hex_digit : ℕ → ℕ
hex_digit d = if ltb d 10 then 48 + d else 87 + d

abbrev hex4 : ℕ → Text
hex4 c =
    hex_digit (c / 4096 % 16)
    ∷ hex_digit (c / 256 % 16)
    ∷ hex_digit (c / 16 % 16)
    ∷ hex_digit (c % 16)
    ∷ []

-- One character of `JSON.stringify(text)`: the short escapes, and `\uXXXX` for the other control
-- characters and for lone surrogates.
abbrev pub escape : ℕ → Text
escape c =
    if c == b'"' || c == 92
    then 92 ∷ c ∷ []
    else if c == 8
    then lit "\\b"
    else if c == 9
    then lit "\\t"
    else if c == 10
    then lit "\\n"
    else if c == 12
    then lit "\\f"
    else if c == 13
    then lit "\\r"
    else if ltb c 32 || (leb 0xd800 c && leb c 0xdfff)
    then 92 ∷ b'u' ∷ hex4 c
    else c ∷ []

abbrev escaped : Text → Text
escaped [] = []
escaped (c ∷ s) = escape c ++ escaped s

-- `JSON.stringify(text)`
unfoldable pub json_string_literal : Text → Text
json_string_literal s = b'"' ∷ escaped s ++ b'"' ∷ []

-- `"${text}"`
abbrev pub quoted : Text → Text
quoted s = b'"' ∷ s ++ b'"' ∷ []

abbrev bool_text : Bool → Text
bool_text true = lit "true"
bool_text false = lit "false"

module _ ⦃u : Unicode⦄ ⦃n : Numerics⦄ where
  unfoldable mutual
    pub serialize_object : Fields n.Double → Text
    serialize_object end = []
    serialize_object (field k v fs) =
        quoted (to_upper k) ++ (serialize_value (to_upper k) v ++ serialize_object fs)

    pub serialize_value : Text → Json n.Double → Text
    serialize_value name null = []
    serialize_value name (bool b) = quoted (bool_text b)
    serialize_value name object_constructor = quoted object_constructor_text
    serialize_value name (num x) = quoted (n.number_text x)
    serialize_value name (str s) = json_string_literal s
    serialize_value name (arr xs) = serialize_items name xs
    serialize_value name (obj fs) = serialize_object fs

    -- The array's name stands before each item; an array within an array is left out.
    pub serialize_items : Text → Items n.Double → Text
    serialize_items name nil = []
    serialize_items name (cons x xs) = quoted name ++ (serialize_item x ++ serialize_items name xs)

    pub serialize_item : Json n.Double → Text
    serialize_item null = []
    serialize_item (bool b) = quoted (bool_text b)
    serialize_item object_constructor = []
    serialize_item (num x) = quoted (n.number_text x)
    serialize_item (str s) = json_string_literal s
    serialize_item (arr xs) = []
    serialize_item (obj fs) = serialize_object fs

  unfoldable pub canonical_serialize : Fields n.Double → Text
  canonical_serialize document = serialize_object document
