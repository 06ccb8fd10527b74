-- ===== src/Validation/Recomputed.antt =====
-- `checkEtaTotals` of packages/eta-core/src/local-validator.ts on the lines that `buildLines` of
-- packages/eta-core/src/builders/document.ts makes.
use einvoice.Prelude.{
  ℕ, suc, ◌+◌, ◌<◌, ◌≡◌, refl, subst, ◌∙◌, ap, false, none, some, List, [], ◌∷◌, map, Unicode, ok,
  ℤ, pos, ◌+ℤ◌, ◌-ℤ◌, size, size-+ℤ, +ℤ_zero, +ℤ_assoc, arith,
}
use einvoice.Money.{
  Numerics, money, precision, double_precision, format_money, add-money, sub-money,
}
use einvoice.Json.{num, obj, Fields, get_field, items}
use einvoice.Json.Strings.{js_string}
use einvoice.Totals.{LineTaxComputed}
use einvoice.Totals.Line.{LineInput, LineComputed, as_amount}
use einvoice.Totals.Consistency.{calculate_line_consistent}
use einvoice.Totals.DocumentSums.{MoneyLine, as_line, sum_of, weight, weights}
use einvoice.Totals.DocumentSums.TaxMap.{as_computed, tax_sizes}
use einvoice.Builder.Lines.{IsBuilt, tax_object}
use einvoice.Builder.Payload.{EachBuilt}
use einvoice.Validation.{to_amount, beyond_tolerance}
use einvoice.Validation.Totals.{TotalsCheck, read_taxes, check_read_line, check_line, check_lines}

-- The variables of the loop, in cents, where nothing is wrong.
abbrev pub checked : ℤ → ℤ → TotalsCheck
checked lines nets = record {
  sum_line_totals = money lines;
  sum_net_totals = money nets;
  incomplete = false;
  issues = [];
}

minus_self : (a : ℤ) → a -ℤ a ≡ pos 0
unfolding ◌-ℤ◌
minus_self a = ground arith

abbrev head_or : {A : Type 0} → A → List A → A
head_or d [] = d
head_or d (x ∷ xs) = x

abbrev tail : {A : Type 0} → List A → List A
tail [] = []
tail (x ∷ xs) = xs

first_eq :
    {A : Type 0} {x y : A} {xs ys : List A} (d : A) → ◌≡◌ {A = List A} (x ∷ xs) (y ∷ ys) → x ≡ y
first_eq d e = ap (head_or d) e

rest_eq : {A : Type 0} {x y : A} {xs ys : List A} → ◌≡◌ {A = List A} (x ∷ xs) (y ∷ ys) → xs ≡ ys
rest_eq e = ap tail e

module _ ⦃n : Numerics⦄ where
  pub to_amount-money :
      (a : ℤ)
      → size a < double_precision
      → to_amount (some (num (n.number (money a)))) ≡ ok (some (money a))
  unfolding to_amount format_money
  to_amount-money a h =
      rw (n.is_finite-money a h) (rw (n.parse-number_text a h) (rw (n.to_fixed2-cents a) refl))

  pub beyond_tolerance_self : (a : ℤ) → beyond_tolerance (money a) (money a) ≡ ok none
  unfolding beyond_tolerance
  beyond_tolerance_self a =
      rw (sub-money a a (rw (minus_self a) (omega arith)))
        (rw (minus_self a) (rw (n.is_beyond_half-money (pos 0) (omega arith)) refl))

  pub read_taxes-tax_object :
      (ts : List (LineTaxComputed × ℤ))
      → tax_sizes ts < double_precision
      → read_taxes (items (map tax_object (map as_computed ts)))
        ≡ ok (map as_amount (map as_computed ts), false)
  unfolding read_taxes get_field js_string
  read_taxes-tax_object [] h = refl
  read_taxes-tax_object ((t, a) ∷ ts) h =
      rw (to_amount-money a (omega arith)) (rw (read_taxes-tax_object ts (omega arith)) refl)

module _ ⦃u : Unicode⦄ ⦃n : Numerics⦄ where
  check_read_line-built :
      (x y : ℤ) (i : ℕ) (line : LineInput) (l : MoneyLine) (fs : Fields n.Double)
      → IsBuilt line (as_line l, fs)
      → weight l < double_precision
      → size x + size y + weight l < precision
      → check_read_line (checked x y) i fs (money l.net) (money l.total)
        ≡ ok (checked (x +ℤ l.total) (y +ℤ l.net))
  unfolding check_read_line
  check_read_line-built x y i line l fs (computed, sends) h q =
      let (_, _, (b, balances, total, _, _)) =
        calculate_line_consistent line (as_line l) computed in
      rw sends.taxes (
        rw (read_taxes-tax_object l.taxes (omega arith)) (
          rw sends.items_discount (
            rw (to_amount-money l.items (omega arith)) (
              rw balances (
                rw (← total) (
                  rw (beyond_tolerance_self l.total) (
                    rw (add-money x l.total (omega (arith, size-+ℤ x l.total)))
                      (rw (add-money y l.net (omega (arith, size-+ℤ y l.net))) refl))))))))

  check_line-built :
      (x y : ℤ) (i : ℕ) (line : LineInput) (l : MoneyLine) (fs : Fields n.Double)
      → IsBuilt line (as_line l, fs)
      → weight l < double_precision
      → size x + size y + weight l < precision
      → check_line (checked x y) i (obj fs) ≡ ok (checked (x +ℤ l.total) (y +ℤ l.net))
  unfolding check_line
  check_line-built x y i line l fs b h q = rw b.1.net_total (
      rw (to_amount-money l.net (omega arith)) (
        rw b.1.total (
          rw (to_amount-money l.total (omega arith))
            (check_read_line-built x y i line l fs b h q))))

  pub check_lines-built :
      (x y : ℤ) (i : ℕ) (ls : List MoneyLine) (bs : List (LineComputed × Fields n.Double))
      → map (λ b. b.0) bs ≡ map as_line ls
      → EachBuilt bs
      → weights ls < double_precision
      → size x + size y + weights ls < precision
      → check_lines (checked x y) i (items (map (λ b. obj (b.1)) bs))
        ≡ ok (checked (x +ℤ sum_of (λ l. l.total) ls) (y +ℤ sum_of (λ l. l.net) ls))
  unfolding check_lines
  check_lines-built x y i [] [] e each h q = rw (+ℤ_zero x) (rw (+ℤ_zero y) refl)
  check_lines-built x y i [] (b ∷ bs) e each h q = cc
  check_lines-built x y i (l ∷ ls) [] e each h q = cc
  check_lines-built x y i (l ∷ ls) ((c, fs) ∷ bs) e ((line, b), each) h q =
      let same = first_eq (as_line l) e in
      let b' = subst (λ z. IsBuilt line (z, fs)) same b in
      rw (check_line-built x y i line l fs b' (omega arith) (omega arith)) (
        check_lines-built (x +ℤ l.total) (y +ℤ l.net) (suc i) ls bs (rest_eq e) each (omega arith)
          (omega (arith, size-+ℤ x l.total, size-+ℤ y l.net))
        ∙ rw (+ℤ_assoc x l.total (sum_of (λ m. m.total) ls))
            (rw (+ℤ_assoc y l.net (sum_of (λ m. m.net) ls)) refl))
