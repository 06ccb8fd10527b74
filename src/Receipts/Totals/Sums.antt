-- ===== src/Receipts/Totals/Sums.antt =====
-- The totals of packages/eta-core/src/receipts/receipt-totals.ts on amounts in whole cents.
use einvoice.Prelude.{
  none, sym, ℕ, ◌+◌, ◌<◌, ◌≤◌, ◌≡◌, refl, ◌∙◌, ap, List, [], ◌∷◌, ◌++◌, map, Text, ok, Unicode,
  arith, ℤ, pos, negsuc, ◌+ℤ◌, ◌-ℤ◌, size, size-+ℤ, +ℤ_zero, zero_+ℤ, +ℤ_assoc,
}
use einvoice.Money.{Numerics, money, cents_text, money_zero, zero_money, precision, add-money}
use einvoice.Totals.{or_else}
use einvoice.Totals.Maps.{map_get}
use einvoice.Totals.DocumentSums.{
  MoneyLine, as_line, sum_of, weights, calculate_document_totals-money,
}
use einvoice.Totals.DocumentSums.TaxMap.{tax_sum}
use einvoice.Receipts.Totals.{
  ReceiptExtraDiscount, ReceiptLineComputed, or_zero, lines_of, extra_discount_loop,
  extra_receipt_discount_total, calculate_receipt_document_totals,
}

or_zero-append : (xs : Text) (c : ℕ) (ys : Text) → or_zero (xs ++ c ∷ ys) ≡ xs ++ c ∷ ys
or_zero-append [] c ys = refl
or_zero-append (x ∷ xs) c ys = refl

or_zero-money : (a : ℤ) → or_zero (money a) ≡ money a
unfolding money cents_text
or_zero-money (pos n) = or_zero-append _ _ _
or_zero-money (negsuc n) = refl

abbrev pub sum_cents : List ℤ → ℤ
sum_cents [] = pos 0
sum_cents (a ∷ es) = a +ℤ sum_cents es

abbrev pub sizes : List ℤ → ℕ
sizes [] = 0
sizes (a ∷ es) = size a + sizes es

abbrev pub as_extra : ℤ → ReceiptExtraDiscount
as_extra a = record { amount = money a; description = none }

-- A line of a receipt whose summed fields are numbers of cents.
abbrev pub as_receipt_line : MoneyLine → ReceiptLineComputed
as_receipt_line l = record { line = as_line l; total_sale = money l.sales; net_sale = money l.net }

size-sum_cents : (es : List ℤ) → size (sum_cents es) ≤ sizes es
size-sum_cents [] = omega arith
size-sum_cents (a ∷ es) = omega (arith, size-sum_cents es, size-+ℤ a (sum_cents es))

lines_of-as_receipt_line :
    (ls : List MoneyLine) → lines_of (map as_receipt_line ls) ≡ map as_line ls
lines_of-as_receipt_line [] = refl
lines_of-as_receipt_line (l ∷ ls) = ap (λ t. as_line l ∷ t) (lines_of-as_receipt_line ls)

module _ ⦃u : Unicode⦄ ⦃n : Numerics⦄ where
  extra_discount_loop-money :
      (a : ℤ) (es : List ℤ)
      → size a + sizes es < precision
      → extra_discount_loop (money a) (map as_extra es) ≡ ok (money (a +ℤ sum_cents es))
  unfolding extra_discount_loop
  extra_discount_loop-money a [] h = ap (λ x. ok (money x)) (sym (+ℤ_zero a))
  extra_discount_loop-money a (e ∷ es) h = rw (or_zero-money e) (
      rw (add-money a e (omega (arith, size-+ℤ a e))) (
        extra_discount_loop-money (a +ℤ e) es (omega (arith, size-+ℤ a e))
        ∙ ap (λ x. ok (money x)) (+ℤ_assoc a e (sum_cents es))))

  extra_receipt_discount_total-money :
      (es : List ℤ)
      → sizes es < precision
      → extra_receipt_discount_total (map as_extra es) ≡ ok (money (sum_cents es))
  extra_receipt_discount_total-money es h = rw (← money_zero) (
      extra_discount_loop-money (pos 0) es (omega arith)
      ∙ ap (λ x. ok (money x)) (zero_+ℤ (sum_cents es)))

  -- On lines and extra discounts in whole cents, whose sizes add up to less than 40 digits, the
  -- totals of a receipt are computed and are the exact sums over the lines; the extra discount is
  -- the sum of the extra discounts, the total amount is the sum of the line totals less it, and the
  -- tax totals give each tax type the sum of its amounts (0.00 for a type that is absent).
  pub calculate_receipt_document_totals-money :
      (ls : List MoneyLine) (es : List ℤ)
      → weights ls + sizes es < precision
      → (m : List (Text × Text)) × (calculate_receipt_document_totals
            (map as_receipt_line ls)
            (map as_extra es)
          ≡ ok (record {
            total_sales = money (sum_of (λ l. l.sales) ls);
            total_commercial_discount = money (sum_of (λ l. l.discount) ls);
            total_items_discount = money (sum_of (λ l. l.items) ls);
            extra_receipt_discount = money (sum_cents es);
            net_amount = money (sum_of (λ l. l.net) ls);
            fees_amount = zero_money;
            adjustment = zero_money;
            total_amount = money (sum_of (λ l. l.total) ls -ℤ sum_cents es);
            tax_totals = m;
          }))
        × ((k : Text)
            → or_else (map_get m k) zero_money ≡ money (sum_of (λ l. tax_sum k l.taxes) ls))
  unfolding calculate_receipt_document_totals
  calculate_receipt_document_totals-money ls es h =
      let (m, e, sums) =
        calculate_document_totals-money ls (sum_cents es) (omega (arith, size-sum_cents es)) in
      (
        m,
        rw (extra_receipt_discount_total-money es (omega arith))
            (rw (lines_of-as_receipt_line ls) (rw e refl)),
        sums,
      )
