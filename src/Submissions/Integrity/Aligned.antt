-- ===== src/Submissions/Integrity/Aligned.antt =====
-- When `verifyPayloadInternalIds` of apps/api/src/submissions/submission-integrity.ts lets a batch be
-- sent, and what it sends.
use einvoice.Prelude.{
  ◌≡◌, refl, ap, ◌↔◌, true, Bool-cases, inl, inr, Option, none, some, List, [], ◌∷◌, Text, lit,
  eq_of_text_eq, text_eq_self, subst,
}
use einvoice.Money.{Numerics}
use einvoice.Json.{Fields, str, set_field}
use einvoice.Submissions.ResultMap.Index.{if_taken, if_passed}
use einvoice.Submissions.Integrity.{
  DbDocument, Verified, integrity_ok, is_id, payload_id, verify_one, verify_loop, integrity_of,
  verify_payload_internal_ids,
}

eq_of_is_id : (o : Option Text) (id : Text) → is_id o id ≡ true → o ≡ some id
eq_of_is_id none id e = cc
eq_of_is_id (some t) id e = ap some (eq_of_text_eq t id e)

module _ ⦃n : Numerics⦄ (payloads : Text → Option (Fields n.Double)) where
  -- The documents to send are the payloads of the documents in their order, each under the internal
  -- id that it had, with its spaces removed, and that its document has.
  pub data Aligned : List DbDocument → List (Fields n.Double) → Type 0 where
    all_aligned : Aligned [] []
    aligned :
        {db : DbDocument} {dbs : List DbDocument} {payload : Fields n.Double}
        {documents : List (Fields n.Double)}
        → payloads db.id ≡ some payload
        → payload_id payload ≡ some db.internal_id
        → Aligned dbs documents
        → Aligned (db ∷ dbs) (set_field payload (lit "internalID") (str db.internal_id) ∷ documents)

  verify_one-Aligned :
      (db : DbDocument) (dbs : List DbDocument) (o : Option (Fields n.Double))
      (rest : Verified n.Double)
      → payloads db.id ≡ o
      → (verify_one db o rest).0 ≡ []
      → (rest.0 ≡ [] → Aligned dbs (rest.1))
      → Aligned (db ∷ dbs) ((verify_one db o rest).1)
  verify_one-Aligned db dbs none (ms, ds) at e ih = cc
  verify_one-Aligned db dbs (some payload) (ms, ds) at e ih =
      elim (Bool-cases (is_id (payload_id payload) db.internal_id)) [
        | inl q ↦
            aligned at (eq_of_is_id (payload_id payload) db.internal_id q) (ih (if_taken _ _ _ q e))
        | inr q ↦ (let never = if_passed _ _ _ q e in cc)
      ]

  verify_loop-Aligned :
      (dbs : List DbDocument)
      → (verify_loop payloads dbs).0 ≡ []
      → Aligned dbs ((verify_loop payloads dbs).1)
  unfolding verify_loop
  verify_loop-Aligned [] e = all_aligned
  verify_loop-Aligned (db ∷ dbs) e =
      verify_one-Aligned db dbs (payloads db.id) (verify_loop payloads dbs) refl e
        (verify_loop-Aligned dbs)

  verify_loop-returns :
      (dbs : List DbDocument) (documents : List (Fields n.Double))
      → Aligned dbs documents
      → verify_loop payloads dbs ≡ ([], documents)
  unfolding verify_loop
  verify_loop-returns [] documents all_aligned = refl
  verify_loop-returns (db ∷ dbs) documents (aligned {documents = ds} at same rest) =
      rw (at, verify_loop-returns dbs ds rest) (rw same (rw (text_eq_self db.internal_id) refl))

  integrity_of-ok :
      (v : Verified n.Double) (documents : List (Fields n.Double))
      → integrity_of v ≡ integrity_ok documents
      → (v.0 ≡ []) × (v.1 ≡ documents)
  integrity_of-ok ([], ds) documents e = (refl, cc)
  integrity_of-ok (m ∷ ms, ds) documents e = cc

  -- `verifyPayloadInternalIds` lets a batch be sent, and with these documents, if and only if each
  -- document has a payload whose internal id, with its spaces removed, is that of the document, and
  -- the documents are those payloads in order, each with the internal id of its document.
  pub verify_payload_internal_ids-Aligned_iff :
      (dbs : List DbDocument) (documents : List (Fields n.Double))
      → (verify_payload_internal_ids payloads dbs ≡ integrity_ok documents) ↔ Aligned dbs documents
  unfolding verify_payload_internal_ids
  verify_payload_internal_ids-Aligned_iff dbs documents = (
    (λ e.
        let (none_wrong, same) = integrity_of-ok (verify_loop payloads dbs) documents e in
        subst (Aligned dbs) same (verify_loop-Aligned dbs none_wrong)),
    (λ h. ap integrity_of (verify_loop-returns dbs documents h)),
  )
