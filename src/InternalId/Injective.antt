-- ===== src/InternalId/Injective.antt =====
-- The ids of different numbers, as packages/eta-core/src/internal-id.ts formats them.
use einvoice.Prelude.{
  ℕ, zero, suc, ◌-◌, ◌≡◌, refl, sym, ◌∙◌, ap, [], ◌∷◌, ◌++◌, ℤ, pos, Text, length, replicate,
}
use einvoice.Prelude.Numeral.{digits, value, value-digits}
use einvoice.InternalId.{pad_start, format_internal_id}

abbrev tail : Text → Text
tail [] = []
tail (c ∷ s) = s

append-cancel : (p s t : Text) → p ++ s ≡ p ++ t → s ≡ t
append-cancel [] s t e = e
append-cancel (c ∷ p) s t e = append-cancel p s t (ap tail e)

value-zeros : (k : ℕ) (s : Text) → value 0 (replicate k b'0' ++ s) ≡ value 0 s
unfolding value
value-zeros zero s = refl
value-zeros (suc k) s = value-zeros k s

value-pad_start : (w n : ℕ) → value 0 (pad_start w (digits n)) ≡ n
value-pad_start w n = value-zeros (w - length (digits n)) (digits n) ∙ value-digits n

-- Under one prefix and one width, numbers with the same id are the same number.
pub format_internal_id-injective :
    (prefix : Text) (pad_width : ℤ) (m n : ℕ)
    → format_internal_id prefix (pos m) pad_width ≡ format_internal_id prefix (pos n) pad_width
    → m ≡ n
unfolding format_internal_id
format_internal_id-injective prefix w m n e =
    sym (value-pad_start _ m) ∙ ap (value 0) (append-cancel prefix _ _ e) ∙ value-pad_start _ n
