-- ===== src/Submissions/ResultMap/Index.antt =====
-- The index of the rows in apps/api/src/submissions/submission-202-result-map.ts: a row is found at
-- its key, and nothing else is found.
use einvoice.Prelude.{
  ◌≡◌, refl, sym, ap, ◌∙◌, Bool, true, false, Bool-cases, ◌⊎◌, inl, inr, Option, none, some, List,
  [], ◌∷◌, ◌++◌, Text, text_eq, text_eq_self, eq_of_text_eq, if◌then◌else◌, subst, Ensures,
  Ensures-ok, arith,
}
use mathlib.Core.List.{Memᴰ}
use mathlib.Core.List.Memᴰ.{head, tail}
use einvoice.Submissions.ResultMap.{
  SubmissionDocumentRow, RowIndex, row_key, indexed_row, is_indexed, index_rows,
}

pub if_taken :
    {A : Type 0} (b : Bool) (x y : A) {z : A} → b ≡ true → (if b then x else y) ≡ z → x ≡ z
if_taken true x y e h = h
if_taken false x y e h = cc

pub if_passed :
    {A : Type 0} (b : Bool) (x y : A) {z : A} → b ≡ false → (if b then x else y) ≡ z → y ≡ z
if_passed true x y e h = cc
if_passed false x y e h = h

pub some-injective : {A : Type 0} {a b : A} → ◌≡◌ {A = Option A} (some a) (some b) → a ≡ b
some-injective e = cc

not-is_indexed : (o : Option SubmissionDocumentRow) → is_indexed o ≡ false → o ≡ none
not-is_indexed none e = refl
not-is_indexed (some row) e = cc

found-append :
    (index after : RowIndex) (k : Text) (x : SubmissionDocumentRow)
    → indexed_row index k ≡ some x
    → indexed_row (index ++ after) k ≡ some x
unfolding indexed_row
found-append [] after k x h = cc
found-append ((j, w) ∷ index) after k x h = ground (arith, found-append index after k x)

found-last :
    (index : RowIndex) (k : Text) (x : SubmissionDocumentRow)
    → indexed_row index k ≡ none
    → indexed_row (index ++ ((k, x) ∷ [])) k ≡ some x
unfolding indexed_row
found-last [] k x h = rw (text_eq_self k) refl
found-last ((j, w) ∷ index) k x h = ground (arith, found-last index k x)

append-source :
    (index : RowIndex) (j k : Text) (w x : SubmissionDocumentRow)
    → indexed_row (index ++ ((j, w) ∷ [])) k ≡ some x
    → (indexed_row index k ≡ some x) ⊎ ((w ≡ x) × (j ≡ k))
unfolding indexed_row
append-source [] j k w x h = elim (Bool-cases (text_eq j k)) [
  | inl e ↦ inr (some-injective (if_taken (text_eq j k) _ _ e h), eq_of_text_eq j k e)
  | inr e ↦ inl (if_passed (text_eq j k) _ _ e h)
]
append-source ((i, v) ∷ index) j k w x h = elim (Bool-cases (text_eq i k)) [
  | inl e ↦ inl (rw e (if_taken (text_eq i k) _ _ e h))
  | inr e ↦ rw e (append-source index j k w x (if_passed (text_eq i k) _ _ e h))
]

-- The index after the rows.
pub record IsIndex (index : RowIndex) (rows : List SubmissionDocumentRow) (after : RowIndex)
    : Type 0 where
  pub kept :
      (k : Text) (x : SubmissionDocumentRow)
      → indexed_row index k ≡ some x
      → indexed_row after k ≡ some x
  pub found :
      (row : SubmissionDocumentRow) → Memᴰ row rows → indexed_row after (row_key row) ≡ some row
  pub source :
      (k : Text) (x : SubmissionDocumentRow)
      → indexed_row after k ≡ some x
      → (indexed_row index k ≡ some x) ⊎ (Memᴰ x rows × (row_key x ≡ k))

IsIndex-cons :
    (index after : RowIndex) (row : SubmissionDocumentRow) (rows : List SubmissionDocumentRow)
    → indexed_row index (row_key row) ≡ none
    → IsIndex (index ++ ((row_key row, row) ∷ [])) rows after
    → IsIndex index (row ∷ rows) after
IsIndex-cons index after row rows new h = record {
  kept = λ k x e. h.kept k x (found-append index _ k x e);
  found = found_in;
  source = λ k x e. source_of k x (h.source k x e);
}
  where
    found_in :
        (r : SubmissionDocumentRow) → Memᴰ r (row ∷ rows) → indexed_row after (row_key r) ≡ some r
    found_in r (head same) =
        subst (λ q. indexed_row after (row_key q) ≡ some q) (sym same)
          (h.kept (row_key row) row (found-last index (row_key row) row new))
    found_in r (tail m) = h.found r m

    source_of :
        (k : Text) (x : SubmissionDocumentRow)
        → ((indexed_row (index ++ ((row_key row, row) ∷ [])) k ≡ some x)
            ⊎ (Memᴰ x rows × (row_key x ≡ k)))
        → (indexed_row index k ≡ some x) ⊎ (Memᴰ x (row ∷ rows) × (row_key x ≡ k))
    source_of k x (inr (m, e)) = inr (tail m, e)
    source_of k x (inl e) = elim (append-source index (row_key row) k row x e) [
      | inl old ↦ inl old
      | inr (same, key) ↦ inr (head (sym same), ap row_key (sym same) ∙ key)
    ]

pub index_rows-IsIndex :
    (tenant : Text) (index : RowIndex) (rows : List SubmissionDocumentRow)
    → Ensures (IsIndex index rows) (index_rows tenant index rows)
unfolding index_rows
index_rows-IsIndex tenant index [] =
    Ensures-ok (record { kept = λ k x e. e; found = λ r m. elim m [ ]; source = λ k x e. inl e })
index_rows-IsIndex tenant index (row ∷ rows) = elim (Bool-cases (text_eq row.tenant_id tenant)) [
  | inr e ↦ rw e (record { holds = λ r h. cc })
  | inl e ↦ elim (Bool-cases (is_indexed (indexed_row index (row_key row)))) [
    | inl f ↦ rw (e, f) (record { holds = λ r h. cc })
    | inr f ↦
        rw (e, f)
          (record {
            holds = λ after h. IsIndex-cons index after row rows (not-is_indexed _ f) (
                (index_rows-IsIndex tenant (index ++ ((row_key row, row) ∷ [])) rows).holds after
                  h);
          })
  ]
]
