-- ===== src/Money.antt =====
-- packages/eta-core/src/money.ts: amounts as decimal strings with two fractional digits.
--
-- decimal.js and the JavaScript doubles are not code of the repository: they are the record
-- `Numerics`, whose laws are those of their documentation. A sum of whole cents is exact up to the
-- 40 significant digits that money.ts configures.
pub mod Exact
use einvoice.Prelude.{
  ℕ, suc, ◌+◌, ◌/◌, ◌%◌, ◌^◌, ◌<◌, ◌≡◌, refl, Bool, true, Option, none, some, List, [], ◌∷◌, ◌++◌,
  ℤ, pos, negsuc, ◌+ℤ◌, ◌-ℤ◌, size, Text, lit, Result, ok, or_throw, ◌>>=◌, ltb,
}
use einvoice.Prelude.Numeral.{digits}

-- The text of `n` cents: units, a point and two digits.
unfoldable pub cents_text : ℕ → Text
unfolding digits
cents_text n = digits (n / 100) ++ b'.' ∷ (48 + n / 10 % 10) ∷ (48 + n % 10) ∷ []

-- The canonical money string of a whole number of cents.
unfoldable pub money : ℤ → Text
unfolding cents_text
money (pos n) = cents_text n
money (negsuc n) = b'-' ∷ cents_text (suc n)

-- A sum with fewer significant digits than this is exact.
abbrev pub precision : ℕ
precision = 10 ^ 40

-- A decimal with fewer significant digits than this goes through a double unchanged.
abbrev pub double_precision : ℕ
double_precision = 10 ^ 15

pub record Numerics : Type 1 where
  -- decimal.js
  pub Decimal : Type 0
  pub parse : Text → Option Decimal
  pub plus : Decimal → Decimal → Decimal
  pub minus : Decimal → Decimal → Decimal
  pub times : Decimal → Decimal → Decimal
  pub to_fixed2 : Decimal → Text
  pub cents : ℤ → Decimal
  pub parse-money : (a : ℤ) → parse (money a) ≡ some (cents a)
  pub to_fixed2-cents : (a : ℤ) → to_fixed2 (cents a) ≡ money a
  pub plus-cents : (a b : ℤ) → size (a +ℤ b) < precision → plus (cents a) (cents b) ≡ cents (a +ℤ b)
  pub minus-cents :
      (a b : ℤ) → size (a -ℤ b) < precision → minus (cents a) (cents b) ≡ cents (a -ℤ b)
  pub parse-to_fixed2 : (x : Decimal) → (y : Decimal) × (parse (to_fixed2 x) ≡ some y)
  -- Nothing times zero: a zero, of either sign, is printed with no sign.
  pub to_fixed2-times_zero : (a : ℤ) → to_fixed2 (times (cents a) (cents (pos 0))) ≡ money (pos 0)
  -- Doubles: `Number(text)`, `String(x)`, `x === 0`, `x > 0`, `x < 0`, `x >= k` of a natural number,
  -- `Math.abs(x) > 0.5`, `Math.abs(x - y) <= 0.5`,
  -- `Number.isFinite(x)`, and `(Number(text) / 100).toString()`.
  pub Double : Type 0
  pub number : Text → Double
  pub number_text : Double → Text
  pub is_zero : Double → Bool
  pub is_positive : Double → Bool
  pub is_negative : Double → Bool
  pub is_beyond_half : Double → Bool
  pub reaches : Double → ℕ → Bool
  pub is_close : Double → Double → Bool
  pub is_finite : Double → Bool
  pub percent : Text → Text
  pub parse-percent : (t : Text) → (y : Decimal) × (parse (percent t) ≡ some y)
  pub parse-percent_zero : parse (percent (lit "0")) ≡ some (cents (pos 0))
  pub number-zero : is_zero (number (lit "0")) ≡ true
  -- The difference of a finite double and itself is 0.
  pub is_close-self : (x : Double) → is_finite x ≡ true → is_close x x ≡ true
  -- A double holds every decimal of up to 15 significant digits: it is printed as the same decimal.
  pub is_finite-money : (a : ℤ) → size a < double_precision → is_finite (number (money a)) ≡ true
  pub parse-number_text :
      (a : ℤ) → size a < double_precision → parse (number_text (number (money a))) ≡ some (cents a)
  pub is_beyond_half-money :
      (a : ℤ) → size a < double_precision → is_beyond_half (number (money a)) ≡ ltb 50 (size a)

-- What the calculations throw: a decimal.js error, a repeated tax type with the codes repeated, or
-- a fixed-amount tax with no amount.
pub data Thrown : Type 0 where
  decimal_error : Thrown
  duplicate_tax_type : List Text → Thrown
  fixed_amount_required : Text → Thrown

abbrev pub Calc : Type 0 → Type 0
Calc A = Result Thrown A

abbrev pub zero_money : Text
zero_money = lit "0.00"

pub money_zero : money (pos 0) ≡ zero_money
unfolding money
money_zero = refl

module _ ⦃n : Numerics⦄ where
  -- `d(value)`
  unfoldable pub decimal : Text → Calc n.Decimal
  decimal value = or_throw decimal_error (n.parse value)

  unfoldable pub format_money : Text → Calc Text
  unfolding decimal
  format_money value = do x ← decimal value; ok (n.to_fixed2 x)

  unfoldable pub add : Text → Text → Calc Text
  unfolding decimal
  add a b = do x ← decimal a; y ← decimal b; ok (n.to_fixed2 (n.plus x y))

  unfoldable pub sub : Text → Text → Calc Text
  unfolding decimal
  sub a b = do x ← decimal a; y ← decimal b; ok (n.to_fixed2 (n.minus x y))

  unfoldable pub mul : Text → Text → Calc Text
  unfolding decimal
  mul a b = do x ← decimal a; y ← decimal b; ok (n.to_fixed2 (n.times x y))

  -- On money strings the operations are those of whole cents, as long as 40 digits hold them.
  pub format_money-money : (a : ℤ) → format_money (money a) ≡ ok (money a)
  unfolding format_money
  format_money-money a = rw (n.parse-money a) (rw (n.to_fixed2-cents a))

  pub add-money :
      (a b : ℤ) → size (a +ℤ b) < precision → add (money a) (money b) ≡ ok (money (a +ℤ b))
  unfolding add
  add-money a b h =
      rw (n.parse-money a)
        (rw (n.parse-money b) (rw (n.plus-cents a b h) (rw (n.to_fixed2-cents _))))

  pub sub-money :
      (a b : ℤ) → size (a -ℤ b) < precision → sub (money a) (money b) ≡ ok (money (a -ℤ b))
  unfolding sub
  sub-money a b h =
      rw (n.parse-money a)
        (rw (n.parse-money b) (rw (n.minus-cents a b h) (rw (n.to_fixed2-cents _))))
