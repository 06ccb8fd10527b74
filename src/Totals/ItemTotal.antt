-- ===== src/Totals/ItemTotal.antt =====
-- ETA's item-total equation, on amounts in whole cents: `estimateEtaItemTotal` of
-- packages/eta-core/src/calculate-totals.ts computes the sums exactly, in integers.
use einvoice.Prelude.{
  ℕ, ◌+◌, ◌≤◌, ◌<◌, ◌≡◌, refl, ◌∙◌, some, List, [], ◌∷◌, map, Text, Unicode, ok, arith, ℤ, pos,
  ◌+ℤ◌, ◌-ℤ◌, size, size-+ℤ, size--ℤ, +ℤ_zero, zero_+ℤ, +ℤ_assoc, inl, inr,
}
use einvoice.Money.{
  Numerics, money, money_zero, zero_money, precision, format_money-money, add-money, sub-money,
}
use einvoice.Tax.{EtaTaxDirection, additive, deductible, eta_tax_direction, Direction-cases}
use einvoice.Totals.{EtaTaxAmount, add_tax, add_taxes, estimate_eta_item_total}

abbrev pub as_tax : Text × ℤ → EtaTaxAmount
as_tax (t, a) = record { tax_type = t; amount = money a }

-- The sum of the sizes of the amounts.
abbrev pub sizes : List (Text × ℤ) → ℕ
sizes [] = 0
sizes ((t, a) ∷ ts) = size a + sizes ts

abbrev add_if_additive : EtaTaxDirection → ℤ → ℤ → ℤ
add_if_additive additive a s = a +ℤ s
add_if_additive deductible a s = s

abbrev add_if_deductible : EtaTaxDirection → ℤ → ℤ → ℤ
add_if_deductible additive a s = s
add_if_deductible deductible a s = a +ℤ s

module _ ⦃u : Unicode⦄ where
  -- The sum of the taxes that raise the amount due, and of those that lower it.
  abbrev pub additive_sum : List (Text × ℤ) → ℤ
  additive_sum [] = pos 0
  additive_sum ((t, a) ∷ ts) = add_if_additive (eta_tax_direction t) a (additive_sum ts)

  abbrev pub deductible_sum : List (Text × ℤ) → ℤ
  deductible_sum [] = pos 0
  deductible_sum ((t, a) ∷ ts) = add_if_deductible (eta_tax_direction t) a (deductible_sum ts)

  pub size-sums :
      (ts : List (Text × ℤ)) → size (additive_sum ts) + size (deductible_sum ts) ≤ sizes ts
  size-sums [] = omega arith
  size-sums ((t, a) ∷ ts) = elim (Direction-cases (eta_tax_direction t)) [
    | inl e ↦ rw e (omega (arith, size-sums ts, size-+ℤ a (additive_sum ts)))
    | inr e ↦ rw e (omega (arith, size-sums ts, size-+ℤ a (deductible_sum ts)))
  ]

module _ ⦃u : Unicode⦄ ⦃n : Numerics⦄ where
  add_tax-additive :
      (p m : ℤ) (t : Text) (a : ℤ)
      → eta_tax_direction t ≡ additive
      → size p + size a < precision
      → add_tax (money p, money m) (as_tax (t, a)) ≡ ok (money (p +ℤ a), money m)
  unfolding add_tax
  add_tax-additive p m t a e h =
      rw (format_money-money a) (rw e (rw (add-money p a (omega (arith, size-+ℤ p a))) refl))

  add_tax-deductible :
      (p m : ℤ) (t : Text) (a : ℤ)
      → eta_tax_direction t ≡ deductible
      → size m + size a < precision
      → add_tax (money p, money m) (as_tax (t, a)) ≡ ok (money p, money (m +ℤ a))
  unfolding add_tax
  add_tax-deductible p m t a e h =
      rw (format_money-money a) (rw e (rw (add-money m a (omega (arith, size-+ℤ m a))) refl))

  add_taxes-money :
      (p m : ℤ) (ts : List (Text × ℤ))
      → size p + sizes ts < precision
      → size m + sizes ts < precision
      → add_taxes (money p, money m) (map as_tax ts)
        ≡ ok (money (p +ℤ additive_sum ts), money (m +ℤ deductible_sum ts))
  unfolding add_taxes
  add_taxes-money p m [] h k = rw (+ℤ_zero p) (rw (+ℤ_zero m) refl)
  add_taxes-money p m ((t, a) ∷ ts) h k = elim (Direction-cases (eta_tax_direction t)) [
    | inl e ↦ rw e (
        rw (add_tax-additive p m t a e (omega arith)) (
          add_taxes-money (p +ℤ a) m ts (omega (arith, size-+ℤ p a)) (omega arith)
          ∙ rw (+ℤ_assoc p a (additive_sum ts)) refl))
    | inr e ↦ rw e (
        rw (add_tax-deductible p m t a e (omega arith)) (
          add_taxes-money p (m +ℤ a) ts (omega arith) (omega (arith, size-+ℤ m a))
          ∙ rw (+ℤ_assoc m a (deductible_sum ts)) refl))
  ]

  sums_from_zero :
      (ts : List (Text × ℤ))
      → sizes ts < precision
      → add_taxes (zero_money, zero_money) (map as_tax ts)
        ≡ ok (money (additive_sum ts), money (deductible_sum ts))
  sums_from_zero ts h = rw (← money_zero) (
      add_taxes-money (pos 0) (pos 0) ts (omega arith) (omega arith)
      ∙ rw (zero_+ℤ (additive_sum ts)) (rw (zero_+ℤ (deductible_sum ts)) refl))

  -- On amounts in whole cents whose sizes add up to less than 40 digits, the breakdown is exact:
  -- the total is the net total, plus the taxes that raise it, less withholding and the items
  -- discount.
  pub estimate-money :
      (net items : ℤ) (ts : List (Text × ℤ))
      → size net + sizes ts + size items < precision
      → estimate_eta_item_total (money net) (some (money items)) (map as_tax ts)
        ≡ ok (record {
          net_total = money net;
          items_discount = money items;
          additive_tax_total = money (additive_sum ts);
          deductible_tax_total = money (deductible_sum ts);
          total = money (net +ℤ additive_sum ts -ℤ deductible_sum ts -ℤ items);
        })
  unfolding estimate_eta_item_total
  estimate-money net items ts h =
      let p = additive_sum ts in
      let m = deductible_sum ts in
      rw (format_money-money net) (
        rw (format_money-money items) (
          rw (sums_from_zero ts (omega arith)) (
            rw (add-money net p (omega (arith, size-sums ts, size-+ℤ net p))) (
              rw
                (sub-money (net +ℤ p) m
                  (omega (arith, size-sums ts, size-+ℤ net p, size--ℤ (net +ℤ p) m)))
                (rw
                  (sub-money (net +ℤ p -ℤ m) items (
                    omega (
                      arith,
                      size-sums ts,
                      size-+ℤ net p,
                      size--ℤ (net +ℤ p) m,
                      size--ℤ (net +ℤ p -ℤ m) items,
                    )))
                  refl)))))
