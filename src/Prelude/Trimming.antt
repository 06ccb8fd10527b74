-- ===== src/Prelude/Trimming.antt =====
-- The laws of JavaScript's `trim`.
use Prim.Native.Nat.{ℕ}
use mathlib.Core.Path.{◌≡◌, refl, ap, ◌∙◌}
use mathlib.Core.Bool.{true, false}
use mathlib.Core.List.{[], ◌∷◌}
use mathlib.Core.Logic.{◌⊎◌, inl, inr}
use native.Mathlib.Omega.{arith}
use einvoice.Prelude.Tests.{Bool-cases}
use einvoice.Prelude.Strings.{Text, is_space, is_blank, trim_end, trim}

is_blank-trim_end : (s : Text) → is_blank (trim_end s) ≡ is_blank s
is_blank-trim_end [] = refl
is_blank-trim_end (c ∷ s) = ground (arith, is_blank-trim_end s)

trim_end-trim_end : (s : Text) → trim_end (trim_end s) ≡ trim_end s
trim_end-trim_end [] = refl
trim_end-trim_end (c ∷ s) = ground (arith, is_blank-trim_end s, trim_end-trim_end s)

trim-nil : trim [] ≡ []
unfolding trim
trim-nil = refl

trim-kept : (c : ℕ) (s : Text) → is_space c ≡ false → trim (c ∷ s) ≡ c ∷ trim_end s
unfolding trim
trim-kept c s e = ground arith

trim-dropped : (c : ℕ) (s : Text) → is_space c ≡ true → trim (c ∷ s) ≡ trim s
unfolding trim
trim-dropped c s e = ground arith

pub trim-trim : (s : Text) → trim (trim s) ≡ trim s
trim-trim [] = rw trim-nil trim-nil
trim-trim (c ∷ s) = elim (Bool-cases (is_space c)) [
  | inl e ↦ rw (trim-dropped c s e) (trim-trim s)
  | inr e ↦
      rw (trim-kept c s e) (trim-kept c (trim_end s) e ∙ ap (λ t. c ∷ t) (trim_end-trim_end s))
]

-- A text is blank exactly if nothing of it is left.
pub is_blank-trim : (s : Text) → is_blank (trim s) ≡ is_blank s
is_blank-trim [] = rw trim-nil refl
is_blank-trim (c ∷ s) = elim (Bool-cases (is_space c)) [
  | inl e ↦ rw (trim-dropped c s e) (is_blank-trim s ∙ ground arith)
  | inr e ↦ rw (trim-kept c s e) (rw (is_blank-trim_end s) refl)
]

-- What is left of a text is nothing, or not blank.
pub trim-cases : (s : Text) → (trim s ≡ []) ⊎ (is_blank (trim s) ≡ false)
trim-cases [] = inl trim-nil
trim-cases (c ∷ s) = elim (Bool-cases (is_space c)) [
  | inl e ↦ rw (trim-dropped c s e) (trim-cases s)
  | inr e ↦ inr (rw (trim-kept c s e) (ground arith))
]
