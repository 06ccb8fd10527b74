-- ===== src/Received.antt =====
-- packages/eta-core/src/received-classify.ts: the direction and the kind of documents that a taxpayer
-- received.
pub mod Direction
mod Tests
use einvoice.Prelude.{
  Bool, true, false, ◌||◌, Option, none, some, [], ◌∷◌, Text, lit, text_eq, trim, to_upper, Unicode,
  Result, ok, thrown, if◌then◌else◌,
}
use einvoice.Money.{Numerics}
use einvoice.Json.{
  object_constructor, Json, null, bool, num, str, arr, obj, Fields, end, field, get_field,
  set_field,
}
use einvoice.Json.Strings.{js_string}

pub data ReceivedDocumentKind : Type 0 where
  purchase_invoice purchase_return other_received : ReceivedDocumentKind

abbrev pub eta_document_direction_received : Text
eta_document_direction_received = lit "Received"

abbrev pub or_blank : Option Text → Text
or_blank none = []
or_blank (some s) = s

unfoldable pub classify_received_document : ⦃u : Unicode⦄ → Option Text → ReceivedDocumentKind
classify_received_document eta_document_type =
    let code = to_upper (trim (or_blank eta_document_type)) in
    if text_eq code (lit "I")
    then purchase_invoice
    else if text_eq code (lit "C")
    then purchase_return
    else other_received

abbrev pub is_null : {N : Type 0} → Json N → Bool
is_null null = true
is_null (bool b) = false
is_null object_constructor = false
is_null (num x) = false
is_null (str s) = false
is_null (arr xs) = false
is_null (obj fs) = false

module _ ⦃n : Numerics⦄ where
  -- The loop over the entries; one that is `undefined` is absent.
  unfoldable pub query_loop : Fields n.Double → Fields n.Double → Fields n.Double
  query_loop out end = out
  query_loop out (field k v fs) =
      query_loop
        (if is_null v || text_eq k (lit "direction")
          then out
          else set_field out k (str (js_string v)))
        fs

  abbrev pub entries : Option (Fields n.Double) → Fields n.Double
  entries none = end
  entries (some fs) = fs

  unfoldable pub received_direction_query : Option (Fields n.Double) → Fields n.Double
  unfolding query_loop
  received_direction_query extra =
      query_loop (field (lit "direction") (str eta_document_direction_received) end) (entries extra)

abbrev pub is_received : {N : Type 0} → Option (Json N) → Bool
is_received (some (str s)) = text_eq s eta_document_direction_received
is_received _ = false

-- The direction that was found is thrown.
unfoldable pub assert_received_direction :
    {N : Type 0} → Fields N → Result (Option (Json N)) (Unit {0})
assert_received_direction params =
    let d = get_field params (lit "direction") in if is_received d then ok tt else thrown d
