-- ===== src/Receiver.antt =====
-- packages/eta-core/src/receiver.ts: the receiver of a document, as ETA takes it.
mod Spelling
pub mod Clean
pub mod Types
mod Tests
unfoldable pub use Spelling.*
use einvoice.Prelude.{
  ℕ, Bool, true, false, not, ◌&&◌, ◌||◌, Option, none, some, List, [], ◌∷◌, ◌++◌, Text, lit,
  text_eq, has, trim, is_space, to_lower, to_upper, Unicode, leb, ◌==◌, if◌then◌else◌, Result, ok,
  thrown, ◌>>=◌,
}
use einvoice.Money.{Numerics}
use einvoice.Json.{
  Json, object_constructor, null, bool, num, str, arr, obj, Fields, end, field, get_field,
  set_field,
}
use einvoice.Json.Strings.{js_string}

-- `asRecord(value)`
abbrev pub as_record : {N : Type 0} → Option (Json N) → Option (Fields N)
as_record (some (obj fs)) = some fs
as_record _ = none

-- `value !== undefined && value !== null && value !== ''`
abbrev pub filled : {N : Type 0} → Option (Json N) → Bool
filled none = false
filled (some null) = false
filled (some (str [])) = false
filled (some v) = true

unfoldable pub pick_field : {N : Type 0} → Fields N → List Text → Option (Json N)
pick_field fs [] = none
pick_field fs (key ∷ keys) =
    if filled (get_field fs key) then get_field fs key else pick_field fs keys

-- `a ?? b` of two fields: `null` counts as absent.
abbrev pub coalesce : {N : Type 0} → Option (Json N) → Option (Json N) → Option (Json N)
coalesce none b = b
coalesce (some null) b = b
coalesce a b = a

-- `prefix` of `startsWith`, first.
abbrev pub starts_with : Text → Text → Bool
starts_with [] s = true
starts_with (p ∷ ps) [] = false
starts_with (p ∷ ps) (c ∷ s) = (p == c) && starts_with ps s

abbrev pub kind_text : Option Text → Text
kind_text none = []
kind_text (some s) = s

abbrev pub core_keys : List Text
core_keys =
    lit "type"
    ∷ lit "id"
    ∷ lit "name"
    ∷ lit "address"
    ∷ lit "Type"
    ∷ lit "Id"
    ∷ lit "ID"
    ∷ lit "Name"
    ∷ lit "Address"
    ∷ []

-- The columns of a stored document; `null` and `undefined` of one are `none`.
pub record StoredDocument (N : Type 0) : Type 0 where
  pub kind : Option Text
  pub receiver_type : Option Text
  pub receiver_id : Option Text
  pub receiver_name : Option Text
  pub receiver_address_json : Option (Json N)
  pub eta_payload_json : Option (Json N)

module _ {N : Type 0} where
  abbrev pub text_value : Text → Option (Json N)
  text_value [] = none
  text_value (c ∷ s) = some (str (c ∷ s))

  -- What an entry of an address or an extra of a receiver is kept as: a text trimmed, unless it is
  -- blank; a number or a Boolean as it is; nothing else.
  unfoldable pub compact_value : Json N → Option (Json N)
  unfolding trim
  compact_value (str s) = text_value (trim s)
  compact_value (num x) = some (num x)
  compact_value (bool b) = some (bool b)
  compact_value _ = none

  abbrev pub set_some : Fields N → Text → Option (Json N) → Fields N
  set_some out key none = out
  set_some out key (some v) = set_field out key v

  unfoldable pub address_loop : Fields N → Fields N → Fields N
  address_loop out end = out
  address_loop out (field key value fs) = address_loop (set_some out key (compact_value value)) fs

  -- `Object.keys(out).length ? out : undefined`
  abbrev pub unless_empty : Fields N → Option (Fields N)
  unless_empty end = none
  unless_empty (field k v fs) = some (field k v fs)

  abbrev pub address_of : Option (Fields N) → Option (Fields N)
  address_of none = none
  address_of (some src) = unless_empty (address_loop end src)

  unfoldable pub compact_eta_address : Option (Json N) → Option (Fields N)
  compact_eta_address raw = address_of (as_record raw)

  unfoldable pub extras_loop : Fields N → Fields N → Fields N
  extras_loop out end = out
  extras_loop out (field key value fs) =
      extras_loop (if has core_keys key then out else set_some out key (compact_value value)) fs

  -- `if (text) out[key] = text`
  abbrev pub set_text : Fields N → Text → Text → Fields N
  set_text out key [] = out
  set_text out key (c ∷ s) = set_field out key (str (c ∷ s))

  abbrev pub set_object : Fields N → Text → Option (Fields N) → Fields N
  set_object out key none = out
  set_object out key (some fs) = set_field out key (obj fs)

  -- What an alias is as the `type` of a receiver.
  abbrev pub alias_value : Alias → Json N
  alias_value (eta_type t) = str (type_text t)
  alias_value inherited_constructor = object_constructor
  alias_value inherited_prototype = obj end

  -- The receiver's own fields, in the order in which they are written.
  abbrev pub receiver_core : Json N → Text → Text → Option (Fields N) → Fields N
  receiver_core type id name address =
      let typed = field (lit "type") type end in
      set_object (set_text (set_text typed (lit "id") id) (lit "name") name) (lit "address") address

  abbrev pub record_or_empty : Option (Fields N) → Fields N
  record_or_empty none = end
  record_or_empty (some fs) = fs

  abbrev pub text_column : Option Text → Option (Json N)
  text_column none = none
  text_column (some s) = some (str s)

  abbrev pub json_or_null : Option (Json N) → Json N
  json_or_null none = null
  json_or_null (some v) = v

  -- `asRecord(payload.receiver) ?? asRecord(payload.Receiver) ?? {}`
  abbrev pub payload_receiver : Fields N → Fields N
  payload_receiver payload = elim (as_record (get_field payload (lit "receiver"))) [
    | some fs ↦ fs
    | none ↦ record_or_empty (as_record (get_field payload (lit "Receiver")))
  ]

  -- `pickField(fs, ...keys) ?? column`, written to a field; `undefined` there is read as `null` is.
  abbrev pub set_picked : Fields N → Text → Fields N → List Text → Option (Json N) → Fields N
  set_picked merged key fs keys column =
      set_field merged key (json_or_null (coalesce (pick_field fs keys) column))

  unfoldable pub merged_receiver : StoredDocument N → Fields N
  merged_receiver doc =
      let fs = payload_receiver (record_or_empty (as_record doc.eta_payload_json)) in
      let typed =
        set_picked fs (lit "type") fs (lit "type" ∷ lit "Type" ∷ [])
          (text_column doc.receiver_type) in
      let with_id =
        set_picked typed (lit "id") fs (lit "id" ∷ lit "Id" ∷ lit "ID" ∷ [])
          (text_column doc.receiver_id) in
      let with_name =
        set_picked with_id (lit "name") fs (lit "name" ∷ lit "Name" ∷ [])
          (text_column doc.receiver_name) in
      set_picked with_name (lit "address") fs (lit "address" ∷ lit "Address" ∷ [])
        doc.receiver_address_json

module _ ⦃n : Numerics⦄ where
  -- `value == null ? '' : String(value).trim()`
  unfoldable pub clean_string : Option (Json n.Double) → Text
  clean_string none = []
  clean_string (some null) = []
  clean_string (some v) = trim (js_string v)

  -- The object with its type, and the rest of it.
  unfoldable pub receiver_fields : Json n.Double → Fields n.Double → Fields n.Double
  receiver_fields type src =
      let id = clean_string (pick_field src (lit "id" ∷ lit "Id" ∷ lit "ID" ∷ [])) in
      let name = clean_string (pick_field src (lit "name" ∷ lit "Name" ∷ [])) in
      let picked = pick_field src (lit "address" ∷ lit "Address" ∷ []) in
      let address = compact_eta_address (coalesce picked (get_field src (lit "address"))) in
      extras_loop (receiver_core type id name address) src

module _ ⦃u : Unicode⦄ ⦃n : Numerics⦄ where
  unfoldable pub normalize_eta_receiver_type : Option (Json n.Double) → EtaReceiverType → Alias
  normalize_eta_receiver_type raw fallback = type_of_text (clean_string raw) fallback

  unfoldable pub compact_eta_receiver : Option (Json n.Double) → Bool → Fields n.Double
  compact_eta_receiver raw is_export =
      let src = record_or_empty (as_record raw) in
      let type =
        if is_export
        then eta_type foreign
        else normalize_eta_receiver_type (pick_field src (lit "type" ∷ lit "Type" ∷ [])) business in
      receiver_fields (alias_value type) src

  -- `etaReceiverForDocument(kind, raw)`
  unfoldable pub eta_receiver_for_document : Text → Option (Json n.Double) → Fields n.Double
  eta_receiver_for_document kind raw = compact_eta_receiver raw (starts_with (lit "EXPORT") kind)

  unfoldable pub receiver_from_stored_document : StoredDocument n.Double → Fields n.Double
  receiver_from_stored_document doc =
      eta_receiver_for_document (kind_text doc.kind) (some (obj (merged_receiver doc)))
