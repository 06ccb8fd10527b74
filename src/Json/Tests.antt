-- ===== src/Json/Tests.antt =====
-- Runs of packages/eta-core/src/canonical-serialize.ts and packages/eta-core/src/eta-payload.ts,
-- and the theorems at concrete inputs.
use einvoice.Prelude.{◌≡◌, refl, some, [], ◌∷◌, lit, to_upper}
use einvoice.Prelude.Plain.{plain}
use einvoice.Money.Exact.{exact}
use einvoice.Json.{str, arr, obj, nil, cons, Fields, end, field, get_field, set_field}
use einvoice.Json.Canonical.{json_string_literal, canonical_serialize, serialize_object}
use einvoice.Json.Signatures.{strip_signatures, attach_signatures, canonical_without_signatures}
use einvoice.Json.Signatures.Laws.{get_field-attach_signatures, canonical-attach_signatures}

abbrev document : Fields (exact.Double)
document = field (lit "id") (str (lit "A\"1")) (
    field (lit "signatures") (arr (cons (str (lit "old")) nil)) (
      field (lit "lines")
        (arr (cons (obj (field (lit "x") (str (lit "y")) end)) (cons (obj end) nil))) end))

escape_run : json_string_literal (10 ∷ 92 ∷ 1 ∷ []) ≡ lit "\"\\n\\\\\\u0001\""
unfolding json_string_literal
escape_run = refl

canonical_run :
    canonical_without_signatures document
    ≡ lit "\"ID\"\"A\\\"1\"\"LINES\"\"LINES\"\"X\"\"y\"\"LINES\""
unfolding canonical_without_signatures canonical_serialize serialize_object strip_signatures
    set_field json_string_literal to_upper
canonical_run = refl

get_field-attach_signatures_example :
    get_field (attach_signatures document (str (lit "new") ∷ [])) (lit "id")
    ≡ some (str (lit "A\"1"))
unfolding get_field
get_field-attach_signatures_example =
    get_field-attach_signatures document (str (lit "new") ∷ []) (lit "id")
      (refl, (refl, (refl, tt)))

canonical-attach_signatures_example :
    canonical_without_signatures (attach_signatures document (str (lit "new") ∷ []))
    ≡ canonical_without_signatures document
canonical-attach_signatures_example =
    canonical-attach_signatures document (str (lit "new") ∷ []) (refl, (refl, (refl, tt)))
