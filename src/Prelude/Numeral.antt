-- ===== src/Prelude/Numeral.antt =====
-- Decimal numerals: `String(n)` of a natural number below 10^21 (beyond, JavaScript writes an
-- exponent), what a run of digits stands for, and the round trip between the two.
use Prim.Native.Nat.{ℕ, zero, suc, ◌+◌, ◌-◌, ◌*◌, ◌/◌, ◌%◌, ◌^◌, ◌≤◌, ◌<◌}
use mathlib.Core.Path.{◌≡◌, refl, ◌∙◌}
use mathlib.Core.Logic.{inl, inr}
use mathlib.Core.Bool.{Bool, true, false, ◌&&◌}
use mathlib.Core.List.{[], ◌∷◌, ◌++◌}
use native.Mathlib.Omega.{arith}
use native.Mathlib.Nat.{pow-suc}
use einvoice.Prelude.Tests.{ltb, leb, Bool-cases}
use einvoice.Prelude.Lists.{length, length-append, All, All-append}
use einvoice.Prelude.Strings.{Text}

abbrev pub is_digit : ℕ → Bool
is_digit c = leb b'0' c && leb c b'9'

digits_fuel : ℕ → ℕ → Text
digits_fuel zero n = []
digits_fuel (suc f) n = elim (ltb n 10) [
  | true ↦ (48 + n) ∷ []
  | false ↦ digits_fuel f (n / 10) ++ (48 + n % 10) ∷ []
]

digits_fuel-small : (f n : ℕ) → ltb n 10 ≡ true → digits_fuel (suc f) n ≡ (48 + n) ∷ []
unfolding digits_fuel
digits_fuel-small f n h = ground arith

digits_fuel-large :
    (f n : ℕ)
    → ltb n 10 ≡ false
    → digits_fuel (suc f) n ≡ digits_fuel f (n / 10) ++ (48 + n % 10) ∷ []
unfolding digits_fuel
digits_fuel-large f n h = ground arith

unfoldable pub digits : ℕ → Text
unfolding digits_fuel
digits n = digits_fuel (suc n) n

-- The number that a run of digits adds to those before it.
unfoldable pub value : ℕ → Text → ℕ
value acc [] = acc
value acc (c ∷ s) = value (acc * 10 + (c - 48)) s

value-append : (acc : ℕ) (s : Text) (c : ℕ) → value acc (s ++ c ∷ []) ≡ value acc s * 10 + (c - 48)
unfolding value
value-append acc [] c = refl
value-append acc (d ∷ s) c = value-append (acc * 10 + (d - 48)) s c

value-digits_fuel : (f n : ℕ) → n < f → value 0 (digits_fuel f n) ≡ n
unfolding value
value-digits_fuel zero n h = elim h [ ]
value-digits_fuel (suc f) n h = elim (Bool-cases (ltb n 10)) [
  | inl small ↦ rw (digits_fuel-small f n small) (omega arith)
  | inr large ↦ rw (digits_fuel-large f n large) (
      value-append 0 (digits_fuel f (n / 10)) (48 + n % 10)
      ∙ omega (arith, value-digits_fuel f (n / 10) (ground arith)))
]

pub value-digits : (n : ℕ) → value 0 (digits n) ≡ n
unfolding digits
value-digits n = value-digits_fuel (suc n) n (omega arith)

digits_fuel-All : (f n : ℕ) → All (λ c. is_digit c ≡ true) (digits_fuel f n)
unfolding digits_fuel
digits_fuel-All zero n = tt
digits_fuel-All (suc f) n = elim (Bool-cases (ltb n 10)) [
  | inl small ↦ rw (digits_fuel-small f n small) (ground arith, tt)
  | inr large ↦ rw (digits_fuel-large f n large) (
      All-append (λ c. is_digit c ≡ true) (digits_fuel f (n / 10)) ((48 + n % 10) ∷ [])
        (digits_fuel-All f (n / 10)) (ground arith, tt))
]

pub digits-All : (n : ℕ) → All (λ c. is_digit c ≡ true) (digits n)
unfolding digits
digits-All n = digits_fuel-All (suc n) n

length-digits_fuel : (k f n : ℕ) → n < 10 ^ suc k → length (digits_fuel f n) ≤ suc k
unfolding digits_fuel
length-digits_fuel k zero n h = omega arith
length-digits_fuel zero (suc f) n h = elim (Bool-cases (ltb n 10)) [
  | inl small ↦ rw (digits_fuel-small f n small) (omega arith)
  | inr large ↦ absurd (ground arith)
]
length-digits_fuel (suc k) (suc f) n h = elim (Bool-cases (ltb n 10)) [
  | inl small ↦ rw (digits_fuel-small f n small) (omega arith)
  | inr large ↦ rw (digits_fuel-large f n large) (
      omega (
        arith,
        length-append (digits_fuel f (n / 10)) ((48 + n % 10) ∷ []),
        length-digits_fuel k f (n / 10) (omega (arith, pow-suc 10 (suc k))),
      ))
]

-- A number below 10^k has at most k digits.
pub length-digits : (k n : ℕ) → n < 10 ^ suc k → length (digits n) ≤ suc k
unfolding digits
length-digits k n h = length-digits_fuel k (suc n) n h
