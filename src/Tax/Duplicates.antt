-- ===== src/Tax/Duplicates.antt =====
-- `findDuplicateTaxTypes` of packages/eta-core/src/tax-modes.ts against distinctness of the codes.
use einvoice.Prelude.{
  ◌≡◌, refl, ◌≢◌, ◌↔◌, inl, inr, false, List, [], ◌∷◌, ◌++◌, Text, text_eq, text_eq_iff, has, trim,
  arith, Bool-cases, ◌||◌, All,
}
use einvoice.Tax.{LineTaxInput, set_add, note, duplicates_loop, find_duplicate_tax_types}

-- The trimmed codes that are not blank.
abbrev codes_step : Text → List Text → List Text
codes_step [] ks = ks
codes_step (c ∷ key) ks = (c ∷ key) ∷ ks

abbrev pub codes : List LineTaxInput → List Text
codes [] = []
codes (t ∷ ts) = codes_step (trim t.tax_type) (codes ts)

-- No code stands twice.
abbrev pub Distinct : List Text → Type 0
Distinct [] = Unit
Distinct (k ∷ ks) = (has ks k ≡ false) × Distinct ks

-- None of the codes of `ks` has been seen.
abbrev Unseen : List Text → List Text → Type 0
Unseen seen ks = All (λ k. has seen k ≡ false) ks

has-append : (xs : List Text) (y k : Text) → has (xs ++ y ∷ []) k ≡ (has xs k || text_eq y k)
has-append [] y k = ground arith
has-append (x ∷ xs) y k = ground (arith, has-append xs y k)

text_eq-sym : (a b : Text) → text_eq a b ≡ text_eq b a
text_eq-sym a b = ground (arith, text_eq_iff a b, text_eq_iff b a)

set_add-nonempty : (s : List Text) (k : Text) → s ≢ [] → set_add s k ≢ []
set_add-nonempty [] k h = absurd (h refl)
set_add-nonempty (x ∷ s) k h = ground arith

note-nonempty : (seen dupes : List Text) (key : Text) → dupes ≢ [] → (note seen dupes key).1 ≢ []
note-nonempty seen dupes [] h = h
note-nonempty seen dupes (c ∷ key) h = ground (arith, set_add-nonempty dupes (c ∷ key) h)

-- Once a code has been noted twice it stays in the result.
loop-nonempty :
    (seen dupes : List Text) (ts : List LineTaxInput)
    → dupes ≢ []
    → duplicates_loop (seen, dupes) ts ≢ []
unfolding duplicates_loop
loop-nonempty seen dupes [] h = h
loop-nonempty seen dupes (t ∷ ts) h =
    loop-nonempty (note seen dupes (trim t.tax_type)).0 (note seen dupes (trim t.tax_type)).1 ts
      (note-nonempty seen dupes (trim t.tax_type) h)

Unseen-append :
    (seen : List Text) (key : Text) (ks : List Text)
    → Unseen (seen ++ key ∷ []) ks ↔ (Unseen seen ks × (has ks key ≡ false))
Unseen-append seen key [] = (λ _. (tt, refl), λ _. tt)
Unseen-append seen key (k ∷ ks) =
    ground (arith, has-append seen key k, text_eq-sym key k, Unseen-append seen key ks)

-- The claim about the loop: it reports nothing exactly when no code repeats or has been seen.
abbrev Reports : List LineTaxInput → Type 0
Reports ts =
    (seen : List Text)
    → (duplicates_loop (seen, []) ts ≡ []) ↔ (Distinct (codes ts) × Unseen seen (codes ts))

-- One round of the loop, on the code of the tax in front.
round :
    (seen : List Text) (key : Text) (ts : List LineTaxInput)
    → Reports ts
    → (duplicates_loop (note seen [] key) ts ≡ [])
      ↔ (Distinct (codes_step key (codes ts)) × Unseen seen (codes_step key (codes ts)))
round seen [] ts ih = ih seen
round seen (c ∷ key) ts ih = elim (Bool-cases (has seen (c ∷ key))) [
  | inl old ↦
      rw old ((λ e. absurd (loop-nonempty seen ((c ∷ key) ∷ []) ts (λ q. cc) e)), (λ h. cc (h.1.0)))
  | inr new ↦
      rw new (ground (arith, ih (seen ++ (c ∷ key) ∷ []), Unseen-append seen (c ∷ key) (codes ts)))
]

loop-nil_iff : (ts : List LineTaxInput) → Reports ts
unfolding duplicates_loop
loop-nil_iff [] seen = (λ _. (tt, tt), λ _. refl)
loop-nil_iff (t ∷ ts) seen = round seen (trim t.tax_type) ts (loop-nil_iff ts)

Unseen-nil : (ks : List Text) → Unseen [] ks
Unseen-nil [] = tt
Unseen-nil (k ∷ ks) = (refl, Unseen-nil ks)

-- The check reports nothing exactly when the trimmed codes that are not blank are all different.
pub find_duplicates-nil_iff :
    (ts : List LineTaxInput) → (find_duplicate_tax_types ts ≡ []) ↔ Distinct (codes ts)
unfolding find_duplicate_tax_types
find_duplicates-nil_iff ts =
    let (to, from) = loop-nil_iff ts [] in (λ e. (to e).0, λ d. from (d, Unseen-nil (codes ts)))
