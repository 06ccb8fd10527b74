-- ===== src/Submissions/Integrity.antt =====
-- `verifyPayloadInternalIds` of apps/api/src/submissions/submission-integrity.ts: the internal ids
-- of the payloads against those of the documents, before they are sent to ETA.
pub mod Aligned
use einvoice.Prelude.{
  Bool, true, false, Option, none, some, List, [], ◌∷◌, Text, lit, text_eq, trim, if◌then◌else◌,
}
use einvoice.Money.{Numerics}
use einvoice.Json.{Json, null, bool, num, str, arr, obj, Fields, get_field, set_field}
use einvoice.Json.Strings.{js_string}
use einvoice.Receiver.{coalesce}

pub record DbDocument : Type 0 where
  pub id : Text
  pub internal_id : Text

pub record Mismatch : Type 0 where
  pub document_id : Text
  pub db_internal_id : Text
  pub payload_internal_id : Option Text

pub data IntegrityCode : Type 0 where
  internal_id_mismatch : IntegrityCode

-- A failure holds its code, the mismatches and the reason.
pub data IntegrityResult (N : Type 0) : Type 0 where
  integrity_ok : List (Fields N) → IntegrityResult N
  integrity_fail : IntegrityCode → List Mismatch → Text → IntegrityResult N

abbrev pub mismatch_reason : Text
mismatch_reason =
    lit
      "One or more documents[].internalID values do not match DB Document.internalId; submission aborted before POST (FR-008-integrity)."

-- `payloadInternalId !== db.internalId`
abbrev pub is_id : Option Text → Text → Bool
is_id none id = false
is_id (some t) id = text_eq t id

-- What the loop gathers: the mismatches, and the documents to send.
abbrev pub Verified : Type 0 → Type 0
Verified N = List Mismatch × List (Fields N)

module _ ⦃n : Numerics⦄ where
  abbrev pub trimmed_id : Option (Json n.Double) → Option Text
  trimmed_id none = none
  trimmed_id (some null) = none
  trimmed_id (some v) = some (trim (js_string v))

  abbrev pub payload_id : Fields n.Double → Option Text
  payload_id payload =
      trimmed_id
        (coalesce (get_field payload (lit "internalID")) (get_field payload (lit "internalId")))

  abbrev pub outbound : Fields n.Double → Text → Fields n.Double
  outbound payload id = set_field payload (lit "internalID") (str id)

  -- One document, before what was gathered of the others.
  abbrev pub verify_one :
      DbDocument → Option (Fields n.Double) → Verified n.Double → Verified n.Double
  verify_one db none (mismatches, documents) = (
    record { document_id = db.id; db_internal_id = db.internal_id; payload_internal_id = none }
        ∷ mismatches,
    documents,
  )
  verify_one db (some payload) (mismatches, documents) = (
    (if is_id (payload_id payload) db.internal_id
        then mismatches
        else record {
          document_id = db.id;
          db_internal_id = db.internal_id;
          payload_internal_id = payload_id payload;
        }
          ∷ mismatches),
    outbound payload db.internal_id ∷ documents,
  )

  unfoldable pub verify_loop :
      (Text → Option (Fields n.Double)) → List DbDocument → Verified n.Double
  verify_loop payloads [] = ([], [])
  verify_loop payloads (db ∷ dbs) = verify_one db (payloads db.id) (verify_loop payloads dbs)

  abbrev pub integrity_of : Verified n.Double → IntegrityResult n.Double
  integrity_of ([], documents) = integrity_ok documents
  integrity_of (m ∷ mismatches, documents) =
      integrity_fail internal_id_mismatch (m ∷ mismatches) mismatch_reason

  -- The Map of the payloads is the function of its `get`.
  unfoldable pub verify_payload_internal_ids :
      (Text → Option (Fields n.Double)) → List DbDocument → IntegrityResult n.Double
  unfolding verify_loop
  verify_payload_internal_ids payloads dbs = integrity_of (verify_loop payloads dbs)
