-- ===== src/Totals/Returning/Amounts.antt =====
-- The operations of packages/eta-core/src/money.ts return on texts that can be read.
use einvoice.Prelude.{◌≡◌, some, List, [], Text, text_eq, pos, Gives, gives, inl, inr, Bool-cases}
use einvoice.Money.{Numerics, zero_money, money_zero, format_money, add, sub, mul}
use einvoice.Totals.{amount_of}
use einvoice.Totals.Maps.{map_get, map_set, map_get-map_set}

module _ ⦃n : Numerics⦄ where
  -- decimal.js reads the text.
  abbrev pub Parses : Text → Type 0
  Parses t = (y : n.Decimal) × (n.parse t ≡ some y)

  pub zero-Parses : Parses zero_money
  zero-Parses = (n.cents (pos 0), rw (← money_zero) (n.parse-money (pos 0)))

  pub format_money-Gives : (t : Text) → Parses t → Gives Parses (format_money t)
  unfolding format_money
  format_money-Gives t (y, e) = rw e (gives (n.to_fixed2 y) (n.parse-to_fixed2 y))

  pub add-Gives : (a b : Text) → Parses a → Parses b → Gives Parses (add a b)
  unfolding add
  add-Gives a b (x, e) (y, e') = rw e (rw e' (gives _ (n.parse-to_fixed2 _)))

  pub sub-Gives : (a b : Text) → Parses a → Parses b → Gives Parses (sub a b)
  unfolding sub
  sub-Gives a b (x, e) (y, e') = rw e (rw e' (gives _ (n.parse-to_fixed2 _)))

  pub mul-Gives : (a b : Text) → Parses a → Parses b → Gives Parses (mul a b)
  unfolding mul
  mul-Gives a b (x, e) (y, e') = rw e (rw e' (gives _ (n.parse-to_fixed2 _)))

  -- Every amount of the map can be read.
  abbrev pub AllParse : List (Text × Text) → Type 0
  AllParse m = (k : Text) → Parses (amount_of m k)

  pub nil-AllParse : AllParse []
  unfolding map_get
  nil-AllParse k = zero-Parses

  pub set-AllParse :
      (m : List (Text × Text)) (j v : Text) → AllParse m → Parses v → AllParse (map_set m j v)
  set-AllParse m j v h p k =
      rw (map_get-map_set m j k v)
        (elim (Bool-cases (text_eq j k)) [ inl e ↦ rw e p | inr e ↦ rw e (h k) ])
