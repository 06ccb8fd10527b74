-- ===== src/Guards/Mutability.antt =====
-- apps/api/src/documents/documents-mutability.ts: which documents may be changed. The exceptions
-- keep their codes.
use einvoice.Prelude.{
  Bool, Option, none, some, List, [], ◌∷◌, Text, lit, text_eq, has, if◌then◌else◌, Result, ok,
  thrown, ◌>>=◌,
}

abbrev editable_statuses : List Text
editable_statuses = lit "DRAFT" ∷ lit "READY" ∷ lit "SIGNED" ∷ lit "REJECTED" ∷ lit "INVALID" ∷ []

pub data Refusal : Type 0 where
  document_not_editable document_eta_sync_readonly : Refusal

abbrev pub text_of : Option Text → Text
text_of none = []
text_of (some t) = t

unfoldable pub is_document_editable_status : Option Text → Bool
is_document_editable_status status = has editable_statuses (text_of status)

unfoldable pub assert_document_editable : Option Text → Result Refusal (Unit {0})
assert_document_editable status =
    if is_document_editable_status status then ok tt else thrown document_not_editable

unfoldable pub assert_document_mutable : Option Text → Result Refusal (Unit {0})
assert_document_mutable origin =
    if text_eq (text_of origin) (lit "ETA_SYNC") then thrown document_eta_sync_readonly else ok tt

unfoldable pub assert_document_can_mutate : Option Text → Option Text → Result Refusal (Unit {0})
unfolding assert_document_mutable assert_document_editable
assert_document_can_mutate origin status =
    assert_document_mutable origin >>= λ _. assert_document_editable status
