-- ===== src/Json/Signatures.antt =====
-- packages/eta-core/src/eta-payload.ts: taking the signatures off a document and putting them on.
pub mod Laws
use einvoice.Prelude.{List, Text, lit, text_eq, Unicode, if◌then◌else◌}
use einvoice.Money.{Numerics}
use einvoice.Json.{Json, arr, Fields, end, field, set_field, items}
use einvoice.Json.Canonical.{canonical_serialize}

abbrev pub signatures_key : Text
signatures_key = lit "signatures"

module _ {N : Type 0} where
  -- The loop of `stripSignatures`.
  unfoldable pub strip_loop : Fields N → Fields N → Fields N
  strip_loop out end = out
  strip_loop out (field k v fs) =
      strip_loop (if text_eq k signatures_key then out else set_field out k v) fs

  unfoldable pub strip_signatures : Fields N → Fields N
  unfolding strip_loop
  strip_signatures document = strip_loop end document

  unfoldable pub attach_signatures : Fields N → List (Json N) → Fields N
  attach_signatures document signatures =
      set_field (strip_signatures document) signatures_key (arr (items signatures))

unfoldable pub canonical_without_signatures : ⦃u : Unicode⦄ ⦃n : Numerics⦄ → Fields n.Double → Text
canonical_without_signatures document = canonical_serialize (strip_signatures document)
