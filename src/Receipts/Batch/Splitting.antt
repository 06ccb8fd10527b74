-- ===== src/Receipts/Batch/Splitting.antt =====
-- How packages/eta-core/src/receipts/receipt-batch-signature.ts splits a batch.
use einvoice.Prelude.{
  ◌≤◌, ◌<◌, ◌≡◌, refl, sym, ap, ◌∙◌, ◌⊎◌, inl, inr, Bool, true, false, not, ◌&&◌, ◌||◌, List, [],
  ◌∷◌, ◌++◌, Text, length, join, leb, if◌then◌else◌, All, append_assoc, append-nil, arith, le→leb,
  Bool-cases,
}
use einvoice.Receipts.Batch.{
  SplitOptions, fits, is_empty, pack, halve_until_fits, refine_chunks, split_receipt_batch,
}

or_true : (b : Bool) → (b || true) ≡ true
or_true true = refl
or_true false = refl

module _ {A : Type 0} (ok_chunk : List A → Bool) where
  abbrev starts_anew : List A → A → Bool
  starts_anew current row = not (is_empty current) && not (ok_chunk (current ++ row ∷ []))

  -- The greedy split, chunk after chunk.
  chunks : List A → List A → List (List A)
  chunks current [] = if is_empty current then [] else current ∷ []
  chunks current (row ∷ rows) = elim (starts_anew current row) [
    | true ↦ current ∷ chunks (row ∷ []) rows
    | false ↦ chunks (current ++ row ∷ []) rows
  ]

  pack-chunks :
      (rows : List A) (out : List (List A)) (current : List A)
      → pack ok_chunk rows out current ≡ out ++ chunks current rows
  unfolding pack chunks
  pack-chunks [] out [] = sym (append-nil out)
  pack-chunks [] out (x ∷ c) = refl
  pack-chunks (row ∷ rows) out current = elim (Bool-cases (starts_anew current row)) [
    | inl e ↦
        rw (e, pack, chunks)
          (pack-chunks rows (out ++ current ∷ []) (row ∷ [])
            ∙ append_assoc out (current ∷ []) (chunks (row ∷ []) rows))
    | inr e ↦ rw (e, pack, chunks) (pack-chunks rows out (current ++ row ∷ []))
  ]

  -- A chunk that may be sent: it fits, or it is a single row.
  abbrev Sendable : List A → Type 0
  Sendable c = (0 < length c) × ((length c ≤ 1) ⊎ (ok_chunk c ≡ true))

  -- The first row of what follows does not fit on the chunk.
  abbrev Full : List A → List (List A) → Type 0
  Full c [] = Unit
  Full c ([] ∷ cs) = Unit
  Full c ((x ∷ d) ∷ cs) = ok_chunk (c ++ x ∷ []) ≡ false

  abbrev pub Tight : List (List A) → Type 0
  Tight [] = Unit
  Tight (c ∷ cs) = Full c cs × Tight cs

  pushed :
      (c : List A) (x : A)
      → starts_anew c x ≡ true
      → (0 < length c) × (ok_chunk (c ++ x ∷ []) ≡ false)
  pushed [] x e = cc
  pushed (y ∷ c) x e = ground arith

  extended :
      (c : List A) (x : A)
      → starts_anew c x ≡ false
      → (length (c ++ x ∷ []) ≤ 1) ⊎ (ok_chunk (c ++ x ∷ []) ≡ true)
  extended [] x e = inl (omega arith)
  extended (y ∷ c) x e = ground arith

  join-chunks : (current rows : List A) → join (chunks current rows) ≡ current ++ rows
  unfolding chunks
  join-chunks [] [] = refl
  join-chunks (x ∷ c) [] = refl
  join-chunks current (row ∷ rows) = elim (Bool-cases (starts_anew current row)) [
    | inl e ↦ rw (e, join, chunks) (ap (λ t. current ++ t) (join-chunks (row ∷ []) rows))
    | inr e ↦
        rw (e, join, chunks)
          (join-chunks (current ++ row ∷ []) rows ∙ append_assoc current (row ∷ []) rows)
  ]

  chunks-Sendable :
      (current rows : List A)
      → (length current ≤ 1) ⊎ (ok_chunk current ≡ true)
      → All Sendable (chunks current rows)
  unfolding chunks
  chunks-Sendable [] [] h = tt
  chunks-Sendable (x ∷ c) [] h = ((omega arith, h), tt)
  chunks-Sendable current (row ∷ rows) h = elim (Bool-cases (starts_anew current row)) [
    | inl e ↦
        rw (e, chunks)
          (((pushed current row e).0, h), chunks-Sendable (row ∷ []) rows (inl (omega arith)))
    | inr e ↦ rw (e, chunks) (chunks-Sendable (current ++ row ∷ []) rows (extended current row e))
  ]

  chunks-Full :
      (d : List A) (x : A) (c rows : List A)
      → ok_chunk (d ++ x ∷ []) ≡ false
      → Full d (chunks (x ∷ c) rows)
  unfolding chunks
  chunks-Full d x c [] h = h
  chunks-Full d x c (row ∷ rows) h = elim (Bool-cases (starts_anew (x ∷ c) row)) [
    | inl e ↦ rw (e, chunks) h
    | inr e ↦ rw (e, chunks) (chunks-Full d x (c ++ row ∷ []) rows h)
  ]

  chunks-Tight : (current rows : List A) → Tight (chunks current rows)
  unfolding chunks
  chunks-Tight [] [] = tt
  chunks-Tight (x ∷ c) [] = (tt, tt)
  chunks-Tight current (row ∷ rows) = elim (Bool-cases (starts_anew current row)) [
    | inl e ↦
        rw (e, chunks)
          (chunks-Full current row [] rows (pushed current row e).1, chunks-Tight (row ∷ []) rows)
    | inr e ↦ rw (e, chunks) (chunks-Tight (current ++ row ∷ []) rows)
  ]

  halve-Sendable :
      (x : A) (c : List A)
      → (length (x ∷ c) ≤ 1) ⊎ (ok_chunk (x ∷ c) ≡ true)
      → halve_until_fits (length (x ∷ c)) ok_chunk (x ∷ c) ≡ (x ∷ c) ∷ []
  unfolding halve_until_fits
  halve-Sendable x c (inl h) = rw (le→leb _ _ h, halve_until_fits) refl
  halve-Sendable x c (inr h) = rw (h, or_true (leb (length (x ∷ c)) 1), halve_until_fits) refl

  -- A chunk that the first pass makes is not halved.
  refine_chunks-Sendable : (cs : List (List A)) → All Sendable cs → refine_chunks ok_chunk cs ≡ cs
  unfolding refine_chunks halve_until_fits
  refine_chunks-Sendable [] h = refl
  refine_chunks-Sendable ([] ∷ cs) (h, hs) = ap (λ t. [] ∷ t) (refine_chunks-Sendable cs hs)
  refine_chunks-Sendable ((x ∷ c) ∷ cs) ((l, h), hs) =
      rw (halve-Sendable x c h) (ap (λ t. (x ∷ c) ∷ t) (refine_chunks-Sendable cs hs))

module _ {A : Type 0} (stringify : List A → Text) (opts : SplitOptions A) where
  -- A split of a batch: nothing is lost, repeated or moved; no submission is empty; each one of
  -- more than one receipt is within the limits; and the receipt after a submission would not have
  -- fitted in it.
  abbrev pub IsSplit : List A → List (List A) → Type 0
  IsSplit rs cs =
      (join cs ≡ rs) × (All (Sendable (fits stringify opts)) cs × Tight (fits stringify opts) cs)

  -- A batch is split into submissions that are not empty and hold together the receipts of the
  -- batch in their order; each of more than one receipt is within the limits on the count and on
  -- the bytes; and the first receipt of the next one does not fit on it.
  pub split_receipt_batch-IsSplit :
      (rs : List A) → IsSplit rs (split_receipt_batch stringify opts rs)
  unfolding split_receipt_batch
  split_receipt_batch-IsSplit [] = (refl, (tt, tt))
  split_receipt_batch-IsSplit (r ∷ []) = (refl, (((omega arith, inl (omega arith)), tt), (tt, tt)))
  split_receipt_batch-IsSplit (r ∷ s ∷ rs) =
      let all_rows = r ∷ s ∷ rs in
      let ok_chunk = fits stringify opts in
      rw (pack-chunks ok_chunk all_rows [] []) (
        rw
          (refine_chunks-Sendable ok_chunk (chunks ok_chunk [] all_rows)
            (chunks-Sendable ok_chunk [] all_rows (inl (omega arith))))
          (
            join-chunks ok_chunk [] all_rows,
            (
              chunks-Sendable ok_chunk [] all_rows (inl (omega arith)),
              chunks-Tight ok_chunk [] all_rows,
            ),
          ))
