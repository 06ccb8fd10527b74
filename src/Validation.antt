-- ===== src/Validation.antt =====
-- packages/eta-core/src/local-validator.ts: the issues of a validation, and the tests of fields.
pub mod Totals
pub mod Items
pub mod Document
pub mod Numbers
pub mod PayloadNumbers
pub mod Passing
pub mod Recomputed
pub mod Accepted
pub mod Tolerance
pub mod Built
mod Tests
use einvoice.Prelude.{
  ℕ, Bool, true, false, ◌||◌, Option, none, some, List, [], ◌∷◌, ◌++◌, Text, lit, trim, ok, ◌>>=◌,
  if◌then◌else◌, ◌==◌, Result, and_parts, not, ◌&&◌,
}
use einvoice.Prelude.Numeral.{digits}
use einvoice.Money.{Numerics, Calc, format_money, sub}
use einvoice.Json.{object_constructor, Json, null, bool, num, str, arr, obj, Fields, get_field}
use einvoice.Receiver.{filled}

pub data Severity : Type 0 where
  error warning : Severity

pub record ValidationIssue : Type 0 where
  pub code : Text
  pub path : Text
  pub severity : Severity
  pub message_key : Text
  -- `undefined` is the empty list.
  pub params : List (Text × Text)

-- An error with no parameters, with its code, path and message key.
abbrev pub plain_error : Text → Text → Text → ValidationIssue
plain_error code path key = record {
  code = code;
  path = path;
  severity = error;
  message_key = key;
  params = [];
}

abbrev pub unless : Bool → ValidationIssue → List ValidationIssue
unless test issue = if test then [] else issue ∷ []

-- `path.split('.')`: the first part, and the others.
unfoldable pub split_path : Text → Text × List Text
split_path [] = ([], [])
split_path (c ∷ s) =
    let (part, parts) = split_path s in if c == b'.' then ([], part ∷ parts) else (c ∷ part, parts)

module _ {N : Type 0} where
  -- The walk along the parts.
  unfoldable pub has_parts : Option (Json N) → List Text → Bool
  has_parts cur [] = filled cur
  has_parts (some (obj fs)) (p ∷ ps) = has_parts (get_field fs p) ps
  has_parts _ (p ∷ ps) = false

  unfoldable pub has_path : Fields N → Text → Bool
  unfolding has_parts split_path
  has_path fs path = let (part, parts) = split_path path in has_parts (some (obj fs)) (part ∷ parts)

  -- `typeof value`
  abbrev pub type_of : Option (Json N) → Text
  type_of none = lit "undefined"
  type_of (some null) = lit "object"
  type_of (some (bool b)) = lit "boolean"
  type_of (some object_constructor) = lit "function"
  type_of (some (num x)) = lit "number"
  type_of (some (str s)) = lit "string"
  type_of (some (arr xs)) = lit "object"
  type_of (some (obj fs)) = lit "object"

-- `invoiceLines[3].total` of `invoiceLines`, 3 and `.total`.
abbrev pub indexed : Text → ℕ → Text → Text
indexed name i rest = name ++ (b'[' ∷ (digits i ++ (b']' ∷ rest)))

abbrev pub is_empty_text : Text → Bool
is_empty_text [] = true
is_empty_text (c ∷ s) = false

module _ ⦃n : Numerics⦄ where
  abbrev pub is_json_number : Option (Json n.Double) → Bool
  is_json_number (some (num x)) = n.is_finite x
  is_json_number _ = false

  unfoldable pub assert_json_number : Text → Option (Json n.Double) → List ValidationIssue
  assert_json_number path value = unless (is_json_number value) (record {
    code = lit "ETA_NUMBER_EXPECTED";
    path = path;
    severity = error;
    message_key = lit "documents.validation.numberExpected";
    params = (lit "path", path) ∷ (lit "got", type_of value) ∷ [];
  })

  abbrev pub some_text : Calc Text → Calc (Option Text)
  some_text m = m >>= λ t. ok (some t)

  unfoldable pub to_amount : Option (Json n.Double) → Calc (Option Text)
  to_amount (some (num x)) =
      if n.is_finite x then some_text (format_money (n.number_text x)) else ok none
  to_amount (some (str s)) =
      if not (is_empty_text (trim s)) && n.is_finite (n.number s)
      then some_text (format_money s)
      else ok none
  to_amount _ = ok none

  unfoldable pub beyond_tolerance : Text → Text → Calc (Option Text)
  beyond_tolerance expected actual = do
    difference ← sub actual expected
    ok (if n.is_beyond_half (n.number difference) then some difference else none)
