-- ===== src/Prelude/Strings.antt =====
-- JavaScript strings as lists of code points, with `trim`, the upper case and equality.
use Prim.Native.Nat.{ℕ, ◌+◌, ◌-◌}
use Prim.Native.Char.{code}
use Prim.Native.String.{String}
use mathlib.Core.Path.{◌≡◌, refl, ap₂}
use mathlib.Core.Logic.{◌↔◌}
use mathlib.Core.Bool.{Bool, true, false, ◌&&◌, ◌||◌}
use mathlib.Core.List.{List, [], ◌∷◌, ◌++◌}
use native.Mathlib.Omega.{arith}
use einvoice.Prelude.Tests.{leb, ◌==◌, ==_iff, if◌then◌else◌, and_parts}

abbrev pub Text : Type 0
Text = List ℕ

-- The code points of a literal.
abbrev pub lit : String → Text
lit String.[] = []
lit (String.◌∷◌ c s) = code c ∷ lit s

abbrev pub text_eq : Text → Text → Bool
text_eq [] [] = true
text_eq [] (y ∷ ys) = false
text_eq (x ∷ xs) [] = false
text_eq (x ∷ xs) (y ∷ ys) = (x == y) && text_eq xs ys

pub text_eq_self : (s : Text) → text_eq s s ≡ true
text_eq_self [] = refl
text_eq_self (x ∷ xs) = ground (arith, text_eq_self xs)

pub eq_of_text_eq : (s t : Text) → text_eq s t ≡ true → s ≡ t
eq_of_text_eq [] [] h = refl
eq_of_text_eq [] (y ∷ ys) h = cc
eq_of_text_eq (x ∷ xs) [] h = cc
eq_of_text_eq (x ∷ xs) (y ∷ ys) h =
    let (p, q) = and_parts (x == y) (text_eq xs ys) h in
    ap₂ {C = List ℕ} (λ a b. a ∷ b) ((==_iff x y).0 p) (eq_of_text_eq xs ys q)

pub text_eq_iff : (s t : Text) → (text_eq s t ≡ true) ↔ (s ≡ t)
text_eq_iff s t = (eq_of_text_eq s t, λ e. rw e (text_eq_self t))

-- `new Set(list).has(s)` and `list.includes(s)`.
abbrev pub has : List Text → Text → Bool
has [] s = false
has (x ∷ xs) s = text_eq x s || has xs s

-- WhiteSpace and LineTerminator of ECMAScript, which `trim` removes.
abbrev pub is_space : ℕ → Bool
is_space c =
    (leb 9 c && leb c 13)
    || c == 32
    || c == 0xa0
    || c == 0x1680
    || (leb 0x2000 c && leb c 0x200a)
    || c == 0x2028
    || c == 0x2029
    || c == 0x202f
    || c == 0x205f
    || c == 0x3000
    || c == 0xfeff

abbrev pub trim_start : Text → Text
trim_start [] = []
trim_start (c ∷ s) = if is_space c then trim_start s else c ∷ s

abbrev pub is_blank : Text → Bool
is_blank [] = true
is_blank (c ∷ s) = is_space c && is_blank s

abbrev pub trim_end : Text → Text
trim_end [] = []
trim_end (c ∷ s) = if is_space c && is_blank s then [] else c ∷ trim_end s

unfoldable pub trim : Text → Text
trim s = trim_end (trim_start s)

-- The Unicode tables of the JavaScript engine beyond ASCII.
pub record Unicode : Type 0 where
  pub upper_beyond : ℕ → Text
  pub lower_beyond : ℕ → Text

module _ ⦃u : Unicode⦄ where
  abbrev pub upper_char : ℕ → Text
  upper_char c =
      if leb b'a' c && leb c b'z'
      then (c - 32) ∷ []
      else if leb 128 c
      then u.upper_beyond c
      else c ∷ []

  -- `toUpperCase()`
  unfoldable pub to_upper : Text → Text
  to_upper [] = []
  to_upper (c ∷ s) = upper_char c ++ to_upper s

  abbrev pub lower_char : ℕ → Text
  lower_char c =
      if leb b'A' c && leb c b'Z'
      then (c + 32) ∷ []
      else if leb 128 c
      then u.lower_beyond c
      else c ∷ []

  -- `toLowerCase()`
  unfoldable pub to_lower : Text → Text
  to_lower [] = []
  to_lower (c ∷ s) = lower_char c ++ to_lower s
