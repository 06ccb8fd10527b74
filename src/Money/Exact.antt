-- ===== src/Money/Exact.antt =====
-- A small concrete `Numerics`: decimals with four fractional digits, kept as whole numbers of
-- ten-thousandths. It shows that the laws can hold, and runs the code on concrete amounts.
use einvoice.Prelude.{
  ℕ, zero, suc, ◌+◌, ◌-◌, ◌*◌, ◌/◌, ◌^◌, ◌≡◌, refl, ◌<◌, ◌∙◌, ap, Bool, true, false, Option, none,
  some, [], ◌∷◌, ◌++◌, ℤ, pos, negsuc, sub_ℕ, pos_part, neg_part, ◌+ℤ◌, ◌-ℤ◌, size, Text, lit,
  arith, ◌==◌, if◌then◌else◌, All, ok, ltb, leb,
}
use einvoice.Prelude.Numeral.{is_digit, digits, value, digits-All, value-digits}
use einvoice.Money
use einvoice.Money.{Numerics, cents_text, money, precision, double_precision}

read_fraction : ℕ → ℕ → Text → Option ℕ
read_fraction acc k [] = some (acc * 10 ^ k)
read_fraction acc zero (c ∷ s) = none
read_fraction acc (suc k) (c ∷ s) =
    if is_digit c then read_fraction (acc * 10 + (c - 48)) k s else none

read_units : ℕ → Text → Option ℕ
read_units acc [] = some (acc * 10000)
read_units acc (c ∷ s) =
    let more = read_units (acc * 10 + (c - 48)) s in
    if c == b'.' then read_fraction acc 4 s else if is_digit c then more else none

abbrev signed : (ℕ → ℤ) → Option ℕ → Option ℤ
signed f none = none
signed f (some n) = some (f n)

unfoldable pub read : Text → Option ℤ
unfolding read_units read_fraction
read [] = none
read (c ∷ s) =
    if c == b'-' then signed (sub_ℕ 0) (read_units 0 s) else signed pos (read_units 0 (c ∷ s))

read_units-digits :
    (acc : ℕ) (ds rest : Text)
    → All (λ c. is_digit c ≡ true) ds
    → read_units acc (ds ++ b'.' ∷ rest) ≡ read_fraction (value acc ds) 4 rest
unfolding read_units value
read_units-digits acc [] rest h = refl
read_units-digits acc (c ∷ ds) rest (p, h) =
    ground (arith, read_units-digits (acc * 10 + (c - 48)) ds rest h)

read_units-cents_text : (n : ℕ) → read_units 0 (cents_text n) ≡ some (n * 100)
unfolding cents_text read_fraction
read_units-cents_text n =
    read_units-digits 0 (digits (n / 100)) _ (digits-All (n / 100))
    ∙ rw (value-digits (n / 100)) (ground arith)

read-digits :
    (ds rest : Text)
    → All (λ c. is_digit c ≡ true) ds
    → read (ds ++ b'.' ∷ rest) ≡ signed pos (read_units 0 (ds ++ b'.' ∷ rest))
unfolding read
read-digits [] rest h = refl
read-digits (c ∷ ds) rest (p, h) = ground arith

read-cents_text : (n : ℕ) → read (cents_text n) ≡ some (pos (n * 100))
unfolding cents_text
read-cents_text n =
    read-digits (digits (n / 100)) _ (digits-All (n / 100))
    ∙ ap (signed pos) (read_units-cents_text n)

read-minus : (s : Text) → read (b'-' ∷ s) ≡ signed (sub_ℕ 0) (read_units 0 s)
unfolding read
read-minus s = refl

abbrev pub scale : ℤ → ℤ
scale a = sub_ℕ (pos_part a * 100) (neg_part a * 100)

pub read-money : (a : ℤ) → read (money a) ≡ some (scale a)
unfolding money
read-money (pos n) = read-cents_text n ∙ ground arith
read-money (negsuc n) = read-minus (cents_text (suc n)) ∙ rw (read_units-cents_text (suc n)) refl

abbrev pub to_cents : ℤ → ℤ
to_cents (pos m) = pos ((m + 50) / 100)
to_cents (negsuc m) = sub_ℕ 0 ((suc m + 50) / 100)

pub to_cents-scale : (a : ℤ) → to_cents (scale a) ≡ a
to_cents-scale (pos n) = ground arith
to_cents-scale (negsuc n) = ground arith

abbrev pub product : ℤ → ℤ → ℤ
product a b =
    sub_ℕ ((pos_part a * pos_part b + neg_part a * neg_part b) / 10000)
      ((pos_part a * neg_part b + neg_part a * pos_part b) / 10000)

abbrev pub hundredth : Option ℤ → ℤ
hundredth none = pos 0
hundredth (some (pos m)) = pos (m / 10000)
hundredth (some (negsuc m)) = sub_ℕ 0 (suc m / 10000)

abbrev pub zero_test : Option ℤ → Bool
zero_test (some (pos n)) = n == 0
zero_test _ = false

abbrev pub positive_test : Option ℤ → Bool
positive_test (some (pos (suc n))) = true
positive_test _ = false

abbrev pub negative_test : Option ℤ → Bool
negative_test (some (negsuc n)) = true
negative_test _ = false

abbrev pub beyond_half_test : Option ℤ → Bool
beyond_half_test none = false
beyond_half_test (some x) = ltb 5000 (size x)

abbrev pub reaches_test : Option ℤ → ℕ → Bool
reaches_test (some (pos n)) k = leb (k * 10000) n
reaches_test _ k = false

abbrev pub close_test : Option ℤ → Option ℤ → Bool
close_test none y = false
close_test (some x) none = false
close_test (some x) (some y) = leb (size (x -ℤ y)) 5000

abbrev pub double_text : Option ℤ → Text
double_text none = lit "NaN"
double_text (some x) = money (to_cents x)

abbrev pub finite_test : Option ℤ → Bool
finite_test none = false
finite_test (some x) = true

pub parse_hundredth : (t : Text) → (y : ℤ) × (read (money (hundredth (read t))) ≡ some y)
parse_hundredth t = (scale (hundredth (read t)), read-money (hundredth (read t)))

pub exact_plus : (a b : ℤ) → size (a +ℤ b) < precision → scale a +ℤ scale b ≡ scale (a +ℤ b)
unfolding ◌+ℤ◌
exact_plus a b h = ground arith

pub exact_minus : (a b : ℤ) → size (a -ℤ b) < precision → scale a -ℤ scale b ≡ scale (a -ℤ b)
unfolding ◌-ℤ◌
exact_minus a b h = ground arith

pub to_cents-times_zero :
    (a : ℤ) → money (to_cents (product (scale a) (scale (pos 0)))) ≡ money (pos 0)
to_cents-times_zero a = ap money (ground arith)

pub finite_test-money : (a : ℤ) → size a < double_precision → finite_test (read (money a)) ≡ true
finite_test-money a h = rw (read-money a) refl

pub close_test_self : (x : Option ℤ) → finite_test x ≡ true → close_test x x ≡ true
unfolding ◌-ℤ◌
close_test_self none h = cc
close_test_self (some (pos m)) h = ground arith
close_test_self (some (negsuc m)) h = ground arith

pub read-double_text :
    (a : ℤ) → size a < double_precision → read (double_text (read (money a))) ≡ some (scale a)
read-double_text a h = rw (read-money a) (rw (to_cents-scale a) (read-money a))

ltb-scale : (a : ℤ) → ltb 5000 (size (scale a)) ≡ ltb 50 (size a)
ltb-scale (pos n) = ground arith
ltb-scale (negsuc n) = ground arith

pub beyond_half_test-money :
    (a : ℤ) → size a < double_precision → beyond_half_test (read (money a)) ≡ ltb 50 (size a)
beyond_half_test-money a h = rw (read-money a) (ltb-scale a)

instance abbrev pub exact : Numerics
unfolding read money
exact = record {
  Decimal = ℤ;
  parse = read;
  plus = ◌+ℤ◌;
  minus = ◌-ℤ◌;
  times = product;
  to_fixed2 = λ x. money (to_cents x);
  cents = λ a. scale a;
  parse-money = read-money;
  to_fixed2-cents = λ a. ap money (to_cents-scale a);
  plus-cents = exact_plus;
  minus-cents = exact_minus;
  parse-to_fixed2 = λ x. (scale (to_cents x), read-money (to_cents x));
  to_fixed2-times_zero = to_cents-times_zero;
  Double = Option ℤ;
  number = read;
  number_text = double_text;
  is_zero = zero_test;
  is_positive = positive_test;
  is_negative = negative_test;
  is_beyond_half = beyond_half_test;
  reaches = reaches_test;
  is_close = close_test;
  is_finite = finite_test;
  percent = λ t. money (hundredth (read t));
  parse-percent = parse_hundredth;
  parse-percent_zero = refl;
  number-zero = refl;
  is_close-self = close_test_self;
  is_finite-money = finite_test-money;
  parse-number_text = read-double_text;
  is_beyond_half-money = beyond_half_test-money;
}

mul_test : Money.mul (lit "2.5") (lit "10.01") ≡ ok (lit "25.03")
unfolding Money.mul read money
mul_test = refl
