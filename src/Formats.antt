-- ===== src/Formats.antt =====
-- packages/eta-core/src/eta-formats.ts: the time of issue and the decimals of ETA's payload.
--
-- `new Date(text).toISOString()` is not code of the repository: it is the record `Dates`, which has
-- no result where the date is invalid.
pub mod Shape
use einvoice.Prelude.{
  ℕ, Bool, true, false, ◌&&◌, Option, none, some, [], ◌∷◌, Text, lit, Result, ok, thrown,
  if◌then◌else◌, ◌==◌,
}
use einvoice.Prelude.Numeral.{is_digit}
use einvoice.Money.{Numerics, Thrown}

pub record Dates : Type 0 where
  pub to_iso : Text → Option Text

-- What the building of a document throws.
pub data BuildError : Type 0 where
  calculation : Thrown → BuildError
  invalid_eta_decimal : Text → BuildError
  invalid_date_time_issued : Text → BuildError

abbrev pub Build : Type 0 → Type 0
Build A = Result BuildError A

-- A character of a pattern: `d` stands for any digit, another character for itself.
abbrev pub fits_pattern : ℕ → ℕ → Bool
fits_pattern p c = if p == b'd' then is_digit c else c == p

-- `/^…$/.test(text)` of such a pattern, first.
unfoldable pub matches : Text → Text → Bool
matches [] [] = true
matches [] (c ∷ s) = false
matches (p ∷ ps) [] = false
matches (p ∷ ps) (c ∷ s) = fits_pattern p c && matches ps s

abbrev pub eta_datetime_issued_pattern : Text
eta_datetime_issued_pattern = lit "dddd-dd-ddTdd:dd:ddZ"

unfoldable pub is_valid_eta_date_time_issued : Text → Bool
is_valid_eta_date_time_issued s = matches eta_datetime_issued_pattern s

-- `replace(/\.\d{3}Z$/, 'Z')`
unfoldable pub strip_milliseconds : Text → Text
unfolding matches
strip_milliseconds [] = []
strip_milliseconds (c ∷ s) =
    let rest = strip_milliseconds s in if matches (lit ".dddZ") (c ∷ s) then lit "Z" else c ∷ rest

-- The texts of `input`; a number or a `Date` is not passed by the callers that are modelled.
unfoldable pub format_eta_date_time_issued : ⦃d : Dates⦄ → Text → Build Text
format_eta_date_time_issued ⦃d⦄ input = elim (d.to_iso input) [
  | none ↦ thrown (invalid_date_time_issued input)
  | some iso ↦ ok (strip_milliseconds iso)
]

-- `toEtaDecimalNumber(text)`
unfoldable pub to_eta_decimal_number : ⦃n : Numerics⦄ → Text → Build n.Double
to_eta_decimal_number ⦃n⦄ value =
    if n.is_finite (n.number value) then ok (n.number value) else thrown (invalid_eta_decimal value)
