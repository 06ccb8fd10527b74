-- ===== src/Submissions/ResultMap.antt =====
-- apps/api/src/submissions/submission-202-result-map.ts: the answer of ETA to a submission, applied
-- to the rows of the batch.
--
-- The Map of the rows is an association list in the order of insertion, the Set of the keys that
-- were seen a list.
pub mod Index
pub mod Joined
use einvoice.Prelude.{
  ℕ, suc, Bool, true, false, not, ◌&&◌, ◌||◌, Option, none, some, List, [], ◌∷◌, ◌++◌, Text, lit,
  text_eq, trim, Result, ok, thrown, ◌>>=◌, length, if◌then◌else◌, has, ltb, ◌==◌,
}
use einvoice.Json.{str, Fields, end, field}

pub record EtaAcceptedDocument : Type 0 where
  pub uuid : Text
  pub long_id : Text
  pub internal_id : Text

pub record EtaRejectedDocument (N : Type 0) : Type 0 where
  pub internal_id : Text
  pub error : Option (Fields N)

-- An absent list of documents and an empty one are treated alike.
pub record Eta202Body (N : Type 0) : Type 0 where
  pub submission_uuid : Text
  pub accepted_documents : List EtaAcceptedDocument
  pub rejected_documents : List (EtaRejectedDocument N)

pub record SubmissionDocumentRow : Type 0 where
  pub id : Text
  pub tenant_id : Text
  pub document_id : Text
  pub document_version : ℕ
  pub internal_id : Text
  pub document_status : Text

-- The row, with what ETA says of it.
pub data MappedDocResult (N : Type 0) : Type 0 where
  accepted : SubmissionDocumentRow → Text → Text → MappedDocResult N
  refused : SubmissionDocumentRow → Fields N → MappedDocResult N

pub data SubmissionState : Type 0 where
  partially_accepted sent resolved needs_attention : SubmissionState

pub record FilingLock : Type 0 where
  pub tenant_id : Text
  pub document_id : Text
  pub document_version : ℕ
  pub submission_document_id : Text

pub record Apply202Result (N : Type 0) : Type 0 where
  pub eta_submission_uuid : Text
  pub submission_state : SubmissionState
  pub accepted_count : ℕ
  pub refused_count : ℕ
  pub mapped : List (MappedDocResult N)
  pub poll_document_ids : List Text
  pub filing_locks : List FilingLock
  pub unmatched_accepted_internal_ids : List Text
  pub unmatched_rejected_internal_ids : List Text
  pub missing_from_both_arrays : List Text
  pub attention : Bool
  pub needs_attention_reasons : List Text

-- The two errors, with the tenant of the row and with the key.
pub data ResultMapError : Type 0 where
  tenant_mismatch : Text → Text → ResultMapError
  duplicate_internal_id : Text → ResultMapError

abbrev pub unknown_accepted : Text
unknown_accepted = lit "Unknown accepted internalId: "

abbrev pub unknown_rejected : Text
unknown_rejected = lit "Unknown rejected internalId: "

abbrev pub RowIndex : Type 0
RowIndex = List (Text × SubmissionDocumentRow)

abbrev pub row_key : SubmissionDocumentRow → Text
row_key row = trim row.internal_id

-- `byInternalId.get(key)`
unfoldable pub indexed_row : RowIndex → Text → Option SubmissionDocumentRow
indexed_row [] key = none
indexed_row ((k, row) ∷ index) key = if text_eq k key then some row else indexed_row index key

abbrev pub is_indexed : Option SubmissionDocumentRow → Bool
is_indexed none = false
is_indexed (some row) = true

-- `byInternalId` after the rows.
unfoldable pub index_rows :
    Text → RowIndex → List SubmissionDocumentRow → Result ResultMapError RowIndex
unfolding indexed_row
index_rows tenant index [] = ok index
index_rows tenant index (row ∷ rows) =
    let rest = index_rows tenant (index ++ ((row_key row, row) ∷ [])) rows in
    if not (text_eq row.tenant_id tenant)
    then thrown (tenant_mismatch tenant row.tenant_id)
    else if is_indexed (indexed_row index (row_key row))
    then thrown (duplicate_internal_id (row_key row))
    else rest

-- What a pass over the answer gathers; the keys of the rows that it found are `seen`.
pub record Reading (N : Type 0) : Type 0 where
  pub seen : List Text
  pub mapped : List (MappedDocResult N)
  pub unmatched : List Text
  pub reasons : List Text

module _ {N : Type 0} where
  abbrev pub empty_reading : Reading N
  empty_reading = record { seen = []; mapped = []; unmatched = []; reasons = [] }

  -- One document before the reading of the others.
  abbrev pub read_before :
      Text
      → Text
      → Option SubmissionDocumentRow
      → (SubmissionDocumentRow → MappedDocResult N)
      → Reading N
      → Reading N
  read_before unknown key none result rest = record rest {
    unmatched = key ∷ rest.unmatched;
    reasons = (unknown ++ key) ∷ rest.reasons;
  }
  read_before unknown key (some row) result rest = record rest {
    seen = key ∷ rest.seen;
    mapped = result row ∷ rest.mapped;
  }

  unfoldable pub read_accepted : RowIndex → List EtaAcceptedDocument → Reading N
  unfolding indexed_row
  read_accepted index [] = empty_reading
  read_accepted index (a ∷ documents) =
      read_before unknown_accepted (trim a.internal_id) (indexed_row index (trim a.internal_id))
        (λ row. accepted row a.uuid a.long_id) (read_accepted index documents)

  -- `error ?? { code: 'Unknown', message: 'Rejected at intake' }`
  abbrev pub intake_error : Option (Fields N) → Fields N
  intake_error (some e) = e
  intake_error none =
      field (lit "code") (str (lit "Unknown"))
        (field (lit "message") (str (lit "Rejected at intake")) end)

  unfoldable pub read_rejected : RowIndex → List (EtaRejectedDocument N) → Reading N
  unfolding indexed_row
  read_rejected index [] = empty_reading
  read_rejected index (r ∷ documents) =
      read_before unknown_rejected (trim r.internal_id) (indexed_row index (trim r.internal_id))
        (λ row. refused row (intake_error r.error)) (read_rejected index documents)

  -- The fields that the kind of the result determines: `attemptOutcome`, `documentStatus`, and
  -- `createFilingLock` and `enqueuePoll`, which are the same.
  abbrev pub attempt_outcome : MappedDocResult N → Text
  attempt_outcome (accepted row uuid long) = lit "ACCEPTED"
  attempt_outcome (refused row e) = lit "REFUSED_AT_INTAKE"

  abbrev pub status_after : MappedDocResult N → Text
  status_after (accepted row uuid long) = lit "SUBMITTED"
  status_after (refused row e) = lit "SIGNED"

  abbrev pub locks_and_polls : MappedDocResult N → Bool
  locks_and_polls (accepted row uuid long) = true
  locks_and_polls (refused row e) = false

  -- Their number, the identifiers of the documents to poll and the locks, of what was accepted.
  abbrev pub count_accepted : List (MappedDocResult N) → ℕ
  count_accepted [] = 0
  count_accepted (accepted row uuid long ∷ ms) = suc (count_accepted ms)
  count_accepted (refused row e ∷ ms) = count_accepted ms

  abbrev pub count_refused : List (MappedDocResult N) → ℕ
  count_refused [] = 0
  count_refused (accepted row uuid long ∷ ms) = count_refused ms
  count_refused (refused row e ∷ ms) = suc (count_refused ms)

  abbrev pub accepted_document_ids : List (MappedDocResult N) → List Text
  accepted_document_ids [] = []
  accepted_document_ids (accepted row uuid long ∷ ms) = row.document_id ∷ accepted_document_ids ms
  accepted_document_ids (refused row e ∷ ms) = accepted_document_ids ms

  abbrev pub locks_of : Text → List (MappedDocResult N) → List FilingLock
  locks_of tenant [] = []
  locks_of tenant (accepted row uuid long ∷ ms) =
      record {
        tenant_id = tenant;
        document_id = row.document_id;
        document_version = row.document_version;
        submission_document_id = row.id;
      }
      ∷ locks_of tenant ms
  locks_of tenant (refused row e ∷ ms) = locks_of tenant ms

unfoldable pub missing_rows : List Text → RowIndex → List Text
missing_rows seen [] = []
missing_rows seen ((key, row) ∷ index) =
    if has seen key then missing_rows seen index else row.internal_id ∷ missing_rows seen index

abbrev pub missing_reasons : List Text → List Text
missing_reasons [] = []
missing_reasons (id ∷ ids) =
    (lit "Batched document missing from both accepted and rejected arrays: " ++ id)
    ∷ missing_reasons ids

abbrev pub is_empty_list : List Text → Bool
is_empty_list [] = true
is_empty_list (id ∷ ids) = false

-- The state for the numbers of accepted and of refused documents.
abbrev pub state_of : ℕ → ℕ → Bool → SubmissionState
state_of accepted_count refused_count attention =
    if ltb 0 accepted_count && ltb 0 refused_count
    then partially_accepted
    else if ltb 0 accepted_count && (refused_count == 0 && not attention)
    then sent
    else if accepted_count == 0 && (ltb 0 refused_count && not attention)
    then resolved
    else if attention
    then needs_attention
    else resolved

module _ {N : Type 0} where
  -- The result, from the index of the rows and the two readings.
  unfoldable pub mapped_result : Text → Text → RowIndex → Reading N → Reading N → Apply202Result N
  mapped_result tenant uuid index a r =
      let mapped = a.mapped ++ r.mapped in
      let missing = missing_rows (a.seen ++ r.seen) index in
      let attention =
        not (is_empty_list a.unmatched)
        || not (is_empty_list r.unmatched)
        || not (is_empty_list missing) in
      record {
        eta_submission_uuid = uuid;
        submission_state = state_of (count_accepted mapped) (count_refused mapped) attention;
        accepted_count = count_accepted mapped;
        refused_count = count_refused mapped;
        mapped = mapped;
        poll_document_ids = accepted_document_ids mapped;
        filing_locks = locks_of tenant mapped;
        unmatched_accepted_internal_ids = a.unmatched;
        unmatched_rejected_internal_ids = r.unmatched;
        missing_from_both_arrays = missing;
        attention = attention;
        needs_attention_reasons = a.reasons ++ (r.reasons ++ missing_reasons missing);
      }

  unfoldable pub apply_202_result_map :
      Text → List SubmissionDocumentRow → Eta202Body N → Result ResultMapError (Apply202Result N)
  unfolding index_rows read_accepted read_rejected mapped_result
  apply_202_result_map tenant rows body = do
    index ← index_rows tenant [] rows
    ok (
        mapped_result tenant body.submission_uuid index
          (read_accepted index body.accepted_documents)
          (read_rejected index body.rejected_documents))
