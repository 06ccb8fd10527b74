-- ===== src/Submissions/ResultMap/Joined.antt =====
-- What packages the answer in apps/api/src/submissions/submission-202-result-map.ts joins, and what
-- it leaves.
use einvoice.Prelude.{
  ◌≡◌, refl, sym, ap, ◌∙◌, Bool, true, false, not, ◌||◌, Bool-cases, ◌⊎◌, inl, inr, Option, none,
  some, List, [], ◌∷◌, ◌++◌, Text, trim, has, text_eq, eq_of_text_eq, ok, All, All-append, Ensures,
  Ensures-ok, Ensures-bind, subst, arith,
}
use mathlib.Core.List.{Memᴰ}
use mathlib.Core.List.Memᴰ.{head, tail, append_left, append_right}
use einvoice.Submissions.ResultMap.{
  EtaAcceptedDocument, EtaRejectedDocument, Eta202Body, SubmissionDocumentRow, MappedDocResult,
  accepted, refused, Apply202Result, RowIndex, unknown_accepted, unknown_rejected, row_key,
  indexed_row, index_rows, Reading, read_before, read_accepted, read_rejected, intake_error,
  missing_rows, is_empty_list, mapped_result, apply_202_result_map,
}
use einvoice.Submissions.ResultMap.Index.{
  IsIndex, index_rows-IsIndex, if_taken, if_passed, some-injective,
}

-- Every row that is found at a key is one of the rows, and the key is its own.
abbrev Sourced : List SubmissionDocumentRow → RowIndex → Type 0
Sourced rows index =
    (k : Text) (x : SubmissionDocumentRow)
    → indexed_row index k ≡ some x
    → Memᴰ x rows × (row_key x ≡ k)

missing_rows_mem :
    (seen : List Text) (index : RowIndex) (k : Text) (row : SubmissionDocumentRow)
    → indexed_row index k ≡ some row
    → has seen k ≡ false
    → Memᴰ row.internal_id (missing_rows seen index)
unfolding indexed_row missing_rows
missing_rows_mem seen [] k row e h = cc
missing_rows_mem seen ((j, w) ∷ index) k row e h = elim (Bool-cases (text_eq j k)) [
  | inl q ↦
      rw (ap (has seen) (eq_of_text_eq j k q) ∙ h)
        (head (ap (λ r. r.internal_id) (sym (some-injective (if_taken (text_eq j k) _ _ q e)))))
  | inr q ↦ elim (Bool-cases (has seen j)) [
    | inl g ↦ rw g (missing_rows_mem seen index k row (if_passed (text_eq j k) _ _ q e) h)
    | inr g ↦ rw g (tail (missing_rows_mem seen index k row (if_passed (text_eq j k) _ _ q e) h))
  ]
]

empty_of_parts :
    (a b : Bool) (xs : List Text) → (not a || not b || not (is_empty_list xs)) ≡ false → xs ≡ []
empty_of_parts true true [] e = refl
empty_of_parts true true (x ∷ xs) e = cc
empty_of_parts true false xs e = cc
empty_of_parts false b xs e = cc

IsIndex-Sourced :
    (rows : List SubmissionDocumentRow) (index : RowIndex)
    → IsIndex [] rows index
    → Sourced rows index
unfolding indexed_row
IsIndex-Sourced rows index i k x e = elim (i.source k x e) [ inl h ↦ cc | inr h ↦ h ]

has-append : (xs ys : List Text) (k : Text) → has (xs ++ ys) k ≡ (has xs k || has ys k)
has-append [] ys k = refl
has-append (x ∷ xs) ys k = ground (arith, has-append xs ys k)

module _ {N : Type 0} where
  abbrev pub row_of : MappedDocResult N → SubmissionDocumentRow
  row_of (accepted row uuid long) = row
  row_of (refused row e) = row

  -- The result is that of a row of the batch and of a document of the answer with the same key.
  abbrev pub IsJoined : List SubmissionDocumentRow → Eta202Body N → MappedDocResult N → Type 0
  IsJoined rows body (accepted row uuid long) =
      Memᴰ row rows
      × (a : EtaAcceptedDocument) × Memᴰ a body.accepted_documents
      × (trim a.internal_id ≡ row_key row)
      × (a.uuid ≡ uuid)
      × (a.long_id ≡ long)
  IsJoined rows body (refused row e) =
      Memᴰ row rows
      × (r : EtaRejectedDocument N) × Memᴰ r body.rejected_documents
      × (trim r.internal_id ≡ row_key row)
      × (intake_error r.error ≡ e)

  abbrev pub IsMapped : SubmissionDocumentRow → List (MappedDocResult N) → Type 0
  IsMapped row ms = (m : MappedDocResult N) × Memᴰ m ms × (row_of m ≡ row)

  read_before-All :
      (P : MappedDocResult N → Type 0) (unknown key : Text) (o : Option SubmissionDocumentRow)
      (result : SubmissionDocumentRow → MappedDocResult N) (rest : Reading N)
      → ((row : SubmissionDocumentRow) → o ≡ some row → P (result row))
      → All P rest.mapped
      → All P (read_before unknown key o result rest).mapped
  read_before-All P unknown key none result rest h ih = ih
  read_before-All P unknown key (some row) result rest h ih = (h row refl, ih)

  -- A key that was seen is that of a row with a result.
  abbrev SeenMapped : RowIndex → Reading N → Type 0
  SeenMapped index r =
      (k : Text)
      → has r.seen k ≡ true
      → (row : SubmissionDocumentRow) × (indexed_row index k ≡ some row) × IsMapped row r.mapped

  read_before-SeenMapped :
      (index : RowIndex) (unknown key : Text) (o : Option SubmissionDocumentRow)
      (result : SubmissionDocumentRow → MappedDocResult N) (rest : Reading N)
      → indexed_row index key ≡ o
      → ((row : SubmissionDocumentRow) → row_of (result row) ≡ row)
      → SeenMapped index rest
      → SeenMapped index (read_before unknown key o result rest)
  read_before-SeenMapped index unknown key none result rest e same ih k seen = ih k seen
  read_before-SeenMapped index unknown key (some row) result rest e same ih k seen =
      elim (Bool-cases (text_eq key k)) [
        | inl q ↦ (
          row,
          subst (λ j. indexed_row index j ≡ some row) (eq_of_text_eq key k q) e,
          (result row, head refl, same row),
        )
        | inr q ↦ let (found, at, (m, mem, owned)) = ih k (cc) in (found, at, (m, tail mem, owned))
      ]

  read_accepted-SeenMapped :
      (index : RowIndex) (documents : List EtaAcceptedDocument)
      → SeenMapped index (read_accepted index documents)
  unfolding read_accepted
  read_accepted-SeenMapped index [] k e = cc
  read_accepted-SeenMapped index (a ∷ documents) k e =
      read_before-SeenMapped index unknown_accepted (trim a.internal_id)
        (indexed_row index (trim a.internal_id)) (λ row. accepted row a.uuid a.long_id)
        (read_accepted index documents) refl (λ row. refl)
        (read_accepted-SeenMapped index documents) k e

  read_rejected-SeenMapped :
      (index : RowIndex) (documents : List (EtaRejectedDocument N))
      → SeenMapped index (read_rejected index documents)
  unfolding read_rejected
  read_rejected-SeenMapped index [] k e = cc
  read_rejected-SeenMapped index (r ∷ documents) k e =
      read_before-SeenMapped index unknown_rejected (trim r.internal_id)
        (indexed_row index (trim r.internal_id)) (λ row. refused row (intake_error r.error))
        (read_rejected index documents) refl (λ row. refl)
        (read_rejected-SeenMapped index documents) k e

  read_accepted-Joined :
      (rows : List SubmissionDocumentRow) (body : Eta202Body N) (index : RowIndex)
      (documents : List EtaAcceptedDocument)
      → Sourced rows index
      → ((a : EtaAcceptedDocument) → Memᴰ a documents → Memᴰ a body.accepted_documents)
      → All (IsJoined rows body) (read_accepted index documents).mapped
  unfolding read_accepted
  read_accepted-Joined rows body index [] s inside = tt
  read_accepted-Joined rows body index (a ∷ documents) s inside =
      read_before-All (IsJoined rows body) unknown_accepted (trim a.internal_id)
        (indexed_row index (trim a.internal_id)) (λ row. accepted row a.uuid a.long_id)
        (read_accepted index documents)
        (λ row e.
          let (m, key) = s (trim a.internal_id) row e in
          (m, a, inside a (head refl), sym key, refl, refl))
        (read_accepted-Joined rows body index documents s (λ b m. inside b (tail m)))

  read_rejected-Joined :
      (rows : List SubmissionDocumentRow) (body : Eta202Body N) (index : RowIndex)
      (documents : List (EtaRejectedDocument N))
      → Sourced rows index
      → ((r : EtaRejectedDocument N) → Memᴰ r documents → Memᴰ r body.rejected_documents)
      → All (IsJoined rows body) (read_rejected index documents).mapped
  unfolding read_rejected
  read_rejected-Joined rows body index [] s inside = tt
  read_rejected-Joined rows body index (r ∷ documents) s inside =
      read_before-All (IsJoined rows body) unknown_rejected (trim r.internal_id)
        (indexed_row index (trim r.internal_id)) (λ row. refused row (intake_error r.error))
        (read_rejected index documents)
        (λ row e.
          let (m, key) = s (trim r.internal_id) row e in
          (m, r, inside r (head refl), sym key, refl))
        (read_rejected-Joined rows body index documents s (λ b m. inside b (tail m)))

  -- A row of the batch has a result, or is reported as missing.
  abbrev pub IsAccounted : Apply202Result N → SubmissionDocumentRow → Type 0
  IsAccounted result row =
      IsMapped row result.mapped ⊎ Memᴰ row.internal_id result.missing_from_both_arrays

  abbrev pub Applies : List SubmissionDocumentRow → Eta202Body N → Apply202Result N → Type 0
  Applies rows body result =
      All (IsJoined rows body) result.mapped
      × ((row : SubmissionDocumentRow) → Memᴰ row rows → IsAccounted result row)
      × (result.attention ≡ false
          → (row : SubmissionDocumentRow) → Memᴰ row rows
          → IsMapped row result.mapped)

  IsMapped-append_left :
      (row : SubmissionDocumentRow) (ms ns : List (MappedDocResult N))
      → IsMapped row ms
      → IsMapped row (ms ++ ns)
  IsMapped-append_left row ms ns (m, mem, same) = (m, append_left ns mem, same)

  IsMapped-append_right :
      (row : SubmissionDocumentRow) (ms ns : List (MappedDocResult N))
      → IsMapped row ns
      → IsMapped row (ms ++ ns)
  IsMapped-append_right row ms ns (m, mem, same) = (m, append_right ms mem, same)

  -- The row that a seen key is the key of is the one that the index has there.
  seen-IsMapped :
      (index : RowIndex) (r : Reading N) (row : SubmissionDocumentRow)
      → SeenMapped index r
      → indexed_row index (row_key row) ≡ some row
      → has r.seen (row_key row) ≡ true
      → IsMapped row r.mapped
  seen-IsMapped index r row seen at e =
      let (found, there, mapped) = seen (row_key row) e in
      subst (λ q. IsMapped q r.mapped) (some-injective (sym there ∙ at)) mapped

  mapped_result-IsAccounted :
      (tenant uuid : Text) (index : RowIndex) (a r : Reading N) (row : SubmissionDocumentRow)
      → SeenMapped index a
      → SeenMapped index r
      → indexed_row index (row_key row) ≡ some row
      → IsAccounted (mapped_result tenant uuid index a r) row
  unfolding mapped_result
  mapped_result-IsAccounted tenant uuid index a r row ha hr at =
      elim (Bool-cases (has a.seen (row_key row))) [
        | inl e ↦
            inl (IsMapped-append_left row a.mapped r.mapped (seen-IsMapped index a row ha at e))
        | inr e ↦ elim (Bool-cases (has r.seen (row_key row))) [
          | inl f ↦
              inl (IsMapped-append_right row a.mapped r.mapped (seen-IsMapped index r row hr at f))
          | inr f ↦ inr (
              missing_rows_mem (a.seen ++ r.seen) index (row_key row) row at
                (rw (has-append a.seen r.seen (row_key row)) (rw (e, f) refl)))
        ]
      ]

  no_missing :
      (tenant uuid : Text) (index : RowIndex) (a r : Reading N)
      → (mapped_result tenant uuid index a r).attention ≡ false
      → (mapped_result tenant uuid index a r).missing_from_both_arrays ≡ []
  unfolding mapped_result
  no_missing tenant uuid index a r e =
      empty_of_parts (is_empty_list a.unmatched) (is_empty_list r.unmatched) _ e

  all_mapped :
      (result : Apply202Result N) (row : SubmissionDocumentRow)
      → result.missing_from_both_arrays ≡ []
      → IsAccounted result row
      → IsMapped row result.mapped
  all_mapped result row e (inl mapped) = mapped
  all_mapped result row e (inr missing) = elim (subst (Memᴰ row.internal_id) e missing) [ ]

  apply_202_result_map-Ensures :
      (tenant : Text) (rows : List SubmissionDocumentRow) (body : Eta202Body N)
      → Ensures (Applies rows body) (apply_202_result_map tenant rows body)
  unfolding apply_202_result_map
  apply_202_result_map-Ensures tenant rows body =
      Ensures-bind (index_rows tenant [] rows) λ index e.
        let i = (index_rows-IsIndex tenant [] rows).holds index e in
        let sourced = IsIndex-Sourced rows index i in
        let a = read_accepted index body.accepted_documents in
        let r = read_rejected index body.rejected_documents in
        let result = mapped_result tenant body.submission_uuid index a r in
        let accounted = λ (row : SubmissionDocumentRow) (m : Memᴰ row rows).
          mapped_result-IsAccounted tenant body.submission_uuid index a r row
            (read_accepted-SeenMapped index body.accepted_documents)
            (read_rejected-SeenMapped index body.rejected_documents) (i.found row m) in
        Ensures-ok (
          (unfold mapped_result in
              All-append (IsJoined rows body) a.mapped r.mapped
                (read_accepted-Joined rows body index body.accepted_documents sourced (λ d m. m))
                (read_rejected-Joined rows body index body.rejected_documents sourced (λ d m. m))),
          accounted,
          λ calm row m.
              all_mapped result row (no_missing tenant body.submission_uuid index a r calm)
                (accounted row m),
        )

  -- Where `apply202ResultMap` returns, every result is that of a row of the batch and of a document
  -- of the answer whose trimmed internal ids are the same, with the identifiers or the error that
  -- ETA gave for it; every row of the batch has a result or is reported as missing; and where no
  -- attention is needed every row has a result.
  pub apply_202_result_map-Applies :
      (tenant : Text) (rows : List SubmissionDocumentRow) (body : Eta202Body N)
      (result : Apply202Result N)
      → apply_202_result_map tenant rows body ≡ ok result
      → Applies rows body result
  apply_202_result_map-Applies tenant rows body result e =
      (apply_202_result_map-Ensures tenant rows body).holds result e
