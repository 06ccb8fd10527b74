-- ===== src/Submissions/Tests.antt =====
-- apps/api/src/submissions/submission-202-result-map.ts on a batch of two rows, of which ETA takes
-- one and refuses the other, and submission-integrity.ts on a payload.
use einvoice.Prelude.{
  Option, some, text_eq, if◌then◌else◌, ◌↔◌, Text, ◌≡◌, refl, none, [], ◌∷◌, lit, ok, trim, Bool,
  true, false, map,
}
use einvoice.Money.Exact.{exact}
use einvoice.Json.{Fields, end, field, str, get_field, set_field}
use einvoice.Json.Strings.{js_string}
use einvoice.Submissions.Integrity.{
  DbDocument, integrity_ok, verify_loop, verify_payload_internal_ids,
}
use einvoice.Submissions.Integrity.Aligned.{Aligned, verify_payload_internal_ids-Aligned_iff}
use einvoice.Submissions.ResultMap.{
  SubmissionDocumentRow, Eta202Body, indexed_row, index_rows, read_accepted, read_rejected,
  missing_rows, mapped_result, apply_202_result_map, Apply202Result, attempt_outcome, status_after,
  locks_and_polls,
}
use einvoice.Submissions.ResultMap.Joined.{Applies, apply_202_result_map-Applies}

abbrev first_row : SubmissionDocumentRow
first_row = record {
  id = lit "s1";
  tenant_id = lit "t";
  document_id = lit "d1";
  document_version = 1;
  internal_id = lit "INV-1";
  document_status = lit "SIGNED";
}

abbrev second_row : SubmissionDocumentRow
second_row = record first_row { id = lit "s2"; document_id = lit "d2"; internal_id = lit "INV-2 " }

abbrev body : Eta202Body Bool
body = record {
  submission_uuid = lit "u";
  accepted_documents =
      record { uuid = lit "e1"; long_id = lit "l1"; internal_id = lit " INV-1" } ∷ [];
  rejected_documents = record { internal_id = lit "INV-2"; error = none } ∷ [];
}

abbrev readings : Apply202Result Bool
readings =
    mapped_result (lit "t") (lit "u") ((lit "INV-1", first_row) ∷ (lit "INV-2", second_row) ∷ [])
      (read_accepted ((lit "INV-1", first_row) ∷ (lit "INV-2", second_row) ∷ [])
        body.accepted_documents)
      (read_rejected ((lit "INV-1", first_row) ∷ (lit "INV-2", second_row) ∷ [])
        body.rejected_documents)

apply_run : apply_202_result_map (lit "t") (first_row ∷ second_row ∷ []) body ≡ ok readings
unfolding apply_202_result_map index_rows indexed_row trim
apply_run = refl

outcomes :
    map {B = Text × Text × Bool}
      (λ m. (attempt_outcome m, status_after m, locks_and_polls m))
      readings.mapped
    ≡ (lit "ACCEPTED", lit "SUBMITTED", true) ∷ (lit "REFUSED_AT_INTAKE", lit "SIGNED", false) ∷ []
unfolding mapped_result read_accepted read_rejected indexed_row trim
outcomes = refl

no_attention : readings.attention ≡ false
unfolding mapped_result missing_rows read_accepted read_rejected indexed_row trim
no_attention = refl

apply_202_result_map-Applies_example : Applies (first_row ∷ second_row ∷ []) body readings
apply_202_result_map-Applies_example =
    apply_202_result_map-Applies (lit "t") (first_row ∷ second_row ∷ []) body readings apply_run

abbrev payloads : Text → Option (Fields (exact.Double))
payloads id =
    if text_eq id (lit "d1") then some (field (lit "internalId") (str (lit " INV-1")) end) else none

abbrev stored : DbDocument
stored = record { id = lit "d1"; internal_id = lit "INV-1" }

abbrev sent : Fields (exact.Double)
sent =
    field (lit "internalId") (str (lit " INV-1")) (field (lit "internalID") (str (lit "INV-1")) end)

verify_run : verify_payload_internal_ids payloads (stored ∷ []) ≡ integrity_ok (sent ∷ [])
unfolding verify_payload_internal_ids verify_loop get_field set_field trim js_string
verify_run = refl

verify_payload_internal_ids-Aligned_iff_example :
    (verify_payload_internal_ids payloads (stored ∷ []) ≡ integrity_ok (sent ∷ []))
    ↔ Aligned payloads (stored ∷ []) (sent ∷ [])
verify_payload_internal_ids-Aligned_iff_example =
    verify_payload_internal_ids-Aligned_iff payloads (stored ∷ []) (sent ∷ [])
