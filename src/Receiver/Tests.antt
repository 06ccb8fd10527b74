-- ===== src/Receiver/Tests.antt =====
-- Runs of packages/eta-core/src/receiver.ts, and the theorems at concrete inputs.
use einvoice.Prelude.{
  ◌≡◌, refl, true, false, not, some, none, lit, trim, to_lower, to_upper, ◌⊎◌, length,
}
use einvoice.Prelude.Plain.{plain}
use einvoice.Money.Exact.{exact}
use einvoice.Json.{object_constructor, null, str, obj, Fields, end, field, get_field, set_field}
use einvoice.Json.Strings.{js_string}
use einvoice.Receiver.{
  EtaReceiverType, foreign, starts_with, eta_receiver_for_document, receiver_from_stored_document,
  compact_eta_receiver, receiver_fields, normalize_eta_receiver_type, fold_receiver_type,
  pick_field, clean_string, receiver_type_alias, compact_value, compact_eta_address, address_loop,
  extras_loop, merged_receiver,
}
use einvoice.Builder.{invoice}
use einvoice.Validation.Document.{receiver_issues}
use einvoice.Receiver.Types.{HasType, inherits_type, eta_receiver_for_document-HasType}
use einvoice.Receiver.Clean.{clean_receiver, clean_receiver-eta_receiver_for_document}

abbrev stored_receiver : Fields (exact.Double)
stored_receiver = field (lit "Type") (str (lit " Person ")) (
    field (lit "id") (str (lit " 29001011234567")) (
      field (lit "name") (str (lit "  ")) (
        field (lit "branch") null (
          field (lit "address")
            (obj (field (lit "country") (str (lit "EG ")) (field (lit "floor") null end))) end))))

abbrev sent_receiver : Fields (exact.Double)
sent_receiver = field (lit "type") (str (lit "P")) (
    field (lit "id") (str (lit "29001011234567"))
      (field (lit "address") (obj (field (lit "country") (str (lit "EG")) end)) end))

receiver_run :
    eta_receiver_for_document (lit "INVOICE") (some (obj stored_receiver)) ≡ sent_receiver
unfolding eta_receiver_for_document compact_eta_receiver receiver_fields normalize_eta_receiver_type
    fold_receiver_type pick_field clean_string receiver_type_alias compact_value compact_eta_address
    address_loop extras_loop get_field set_field trim to_lower to_upper js_string
receiver_run = refl

clean_receiver-eta_receiver_for_document_example :
    clean_receiver
      (not (inherits_type (lit "INVOICE") (some (obj stored_receiver))))
      (eta_receiver_for_document (lit "INVOICE") (some (obj stored_receiver)))
    ≡ true
clean_receiver-eta_receiver_for_document_example =
    clean_receiver-eta_receiver_for_document (lit "INVOICE") (some (obj stored_receiver))

eta_receiver_for_document-HasType_example :
    ((t : EtaReceiverType) × HasType
        (eta_receiver_for_document (lit "INVOICE") (some (obj stored_receiver)))
        t
      × (starts_with (lit "EXPORT") (lit "INVOICE") ≡ true → t ≡ foreign))
    ⊎ (inherits_type (lit "INVOICE") (some (obj stored_receiver)) ≡ true)
eta_receiver_for_document-HasType_example =
    eta_receiver_for_document-HasType (lit "INVOICE") (some (obj stored_receiver))

not_inherited : inherits_type (lit "INVOICE") (some (obj stored_receiver)) ≡ false
unfolding fold_receiver_type pick_field clean_string get_field trim to_lower js_string
not_inherited = refl

abbrev inheriting : Fields (exact.Double)
inheriting = field (lit "type") (str (lit "Constructor")) end

inherited_run :
    eta_receiver_for_document (lit "INVOICE") (some (obj inheriting))
    ≡ field (lit "type") object_constructor end
unfolding eta_receiver_for_document compact_eta_receiver receiver_fields normalize_eta_receiver_type
    fold_receiver_type pick_field clean_string receiver_type_alias compact_eta_address address_loop
    extras_loop get_field set_field trim to_lower js_string
inherited_run = refl

prototype_run :
    eta_receiver_for_document
      (lit "INVOICE")
      (some (obj (field (lit "type") (str (lit "__proto__")) end)))
    ≡ field (lit "type") (obj end) end
unfolding eta_receiver_for_document compact_eta_receiver receiver_fields normalize_eta_receiver_type
    fold_receiver_type pick_field clean_string receiver_type_alias compact_eta_address address_loop
    extras_loop get_field set_field trim to_lower js_string
prototype_run = refl

-- Such a receiver is one that `validateDocument` reports.
reported_run :
    length (receiver_issues invoice (some (field (lit "type") object_constructor end))) ≡ 1
unfolding receiver_issues get_field clean_string trim to_upper js_string
reported_run = refl

merged_run :
    receiver_from_stored_document (record {
      kind = some (lit "CREDIT_NOTE");
      receiver_type = some (lit "P");
      receiver_id = some (lit "123");
      receiver_name = none;
      receiver_address_json = none;
      eta_payload_json =
          some (obj (field (lit "receiver") (obj (field (lit "name") (str (lit "Nile")) end)) end));
    })
    ≡ field
        (lit "type")
        (str (lit "P"))
        (field (lit "id") (str (lit "123")) (field (lit "name") (str (lit "Nile")) end))
unfolding receiver_from_stored_document merged_receiver eta_receiver_for_document
    compact_eta_receiver receiver_fields normalize_eta_receiver_type fold_receiver_type pick_field
    clean_string receiver_type_alias compact_value compact_eta_address address_loop extras_loop
    get_field set_field trim to_lower to_upper js_string
merged_run = refl
