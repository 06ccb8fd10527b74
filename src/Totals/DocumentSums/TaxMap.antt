-- ===== src/Totals/DocumentSums/TaxMap.antt =====
-- The tax totals of `calculateDocumentTotals` in packages/eta-core/src/calculate-totals.ts: the map
-- from tax types to money strings, read as a function from tax types to whole cents.
use einvoice.Prelude.{
  ℕ, ◌+◌, ◌≤◌, ◌<◌, ◌≡◌, refl, ◌∙◌, ap, sym, List, [], ◌∷◌, map, Text, text_eq, text_eq_iff, ok,
  arith, ℤ, pos, ◌+ℤ◌, size, size-+ℤ, +ℤ_zero, +ℤ_assoc, if◌then◌else◌, Bool-cases, inl, inr,
}
use einvoice.Money.{Numerics, money, money_zero, zero_money, precision, add-money}
use einvoice.Totals.{LineTaxComputed, or_else}
use einvoice.Totals.Maps.{map_get, map_set, map_get-map_set}
use einvoice.Totals.Document.{add_line_tax, add_line_taxes}

-- A computed tax whose amount is a number of cents.
abbrev pub as_computed : LineTaxComputed × ℤ → LineTaxComputed
as_computed (t, a) = record t { amount = money a }

abbrev pub tax_sizes : List (LineTaxComputed × ℤ) → ℕ
tax_sizes [] = 0
tax_sizes ((t, a) ∷ ts) = size a + tax_sizes ts

abbrev pub counted : Text → Text → ℤ → ℤ
counted k j a = if text_eq j k then a else pos 0

-- The sum of the amounts of one tax type.
abbrev pub tax_sum : Text → List (LineTaxComputed × ℤ) → ℤ
tax_sum k [] = pos 0
tax_sum k ((t, a) ∷ ts) = counted k t.tax_type a +ℤ tax_sum k ts

-- The map gives each type the amount that `f` gives it, and a type that is absent stands for 0.00.
abbrev pub Holds : List (Text × Text) → (Text → ℤ) → Type 0
Holds m f = (k : Text) → or_else (map_get m k) zero_money ≡ money (f k)

pub Holds-nil : Holds [] (λ k. pos 0)
unfolding map_get
Holds-nil k = sym money_zero

size-counted : (k j : Text) (a : ℤ) → size (counted k j a) ≤ size a
size-counted k j a = elim (Bool-cases (text_eq j k)) [
  | inl e ↦ rw e (omega arith)
  | inr e ↦ rw e (omega arith)
]

pub size-tax_sum : (k : Text) (ts : List (LineTaxComputed × ℤ)) → size (tax_sum k ts) ≤ tax_sizes ts
size-tax_sum k [] = omega arith
size-tax_sum k ((t, a) ∷ ts) = omega (
  arith,
  size-tax_sum k ts,
  size-counted k t.tax_type a,
  size-+ℤ (counted k t.tax_type a) (tax_sum k ts),
)

Holds-set :
    (m : List (Text × Text)) (f : Text → ℤ) (j : Text) (a : ℤ)
    → Holds m f
    → Holds (map_set m j (money (f j +ℤ a))) (λ k. f k +ℤ counted k j a)
Holds-set m f j a h k = elim (Bool-cases (text_eq j k)) [
  | inl e ↦
      rw (map_get-map_set m j k (money (f j +ℤ a)))
        (rw e (ap (λ i. money (f i +ℤ a)) ((text_eq_iff j k).0 e)))
  | inr e ↦
      rw (map_get-map_set m j k (money (f j +ℤ a))) (rw e (h k ∙ ap money (sym (+ℤ_zero (f k)))))
]

-- What a run of the loop over the taxes of a line leaves.
abbrev pub Adds :
    ⦃n : Numerics⦄ → List (Text × Text) → (Text → ℤ) → List (LineTaxComputed × ℤ) → Type 0
Adds m f ts =
    (m' : List (Text × Text)) × (add_line_taxes m (map as_computed ts) ≡ ok m')
    × Holds m' (λ k. f k +ℤ tax_sum k ts)

module _ ⦃n : Numerics⦄ where
  add_line_tax-money :
      (m : List (Text × Text)) (f : Text → ℤ) (t : LineTaxComputed) (a : ℤ)
      → Holds m f
      → size (f t.tax_type) + size a < precision
      → add_line_tax m (as_computed (t, a)) ≡ ok (map_set m t.tax_type (money (f t.tax_type +ℤ a)))
  unfolding add_line_tax
  add_line_tax-money m f t a h b =
      rw (h t.tax_type)
        (rw (add-money (f t.tax_type) a (omega (arith, size-+ℤ (f t.tax_type) a))) refl)

  pub add_line_taxes-money :
      (m : List (Text × Text)) (f : Text → ℤ) (bound : ℕ) (ts : List (LineTaxComputed × ℤ))
      → Holds m f
      → ((k : Text) → size (f k) ≤ bound)
      → bound + tax_sizes ts < precision
      → Adds m f ts
  unfolding add_line_taxes
  add_line_taxes-money m f bound [] h b q = (m, refl, λ k. h k ∙ ap money (sym (+ℤ_zero (f k))))
  add_line_taxes-money m f bound ((t, a) ∷ ts) h b q =
      let j = t.tax_type in
      let (m', e, h') =
        add_line_taxes-money (map_set m j (money (f j +ℤ a))) (λ k. f k +ℤ counted k j a)
          (bound + size a) ts (Holds-set m f j a h)
          (λ k. omega (arith, b k, size-counted k j a, size-+ℤ (f k) (counted k j a)))
          (omega arith) in
      (
        m',
        rw (add_line_tax-money m f t a h (omega (arith, b j))) e,
        λ k. h' k ∙ ap money (+ℤ_assoc (f k) (counted k j a) (tax_sum k ts)),
      )
