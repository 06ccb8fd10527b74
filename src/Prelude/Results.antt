-- ===== src/Prelude/Results.antt =====
-- The outcome of code that may throw: a value, or what was thrown.
use mathlib.Core.Path.{◌≡◌, refl, ap, subst}
use mathlib.Core.Bool.{Bool, true, false}
use mathlib.Core.Option.{Option, none, some}
use mathlib.Core.List.{List, [], ◌∷◌}
use einvoice.Prelude.Tests.{if◌then◌else◌}
use einvoice.Prelude.Lists.{All}

pub data Result (E A : Type 0) : Type 0 where
  ok : A → Result E A
  thrown : E → Result E A

module _ {E : Type 0} where
  infixl 5 ◌>>=◌
  abbrev pub ◌>>=◌ : {A B : Type 0} → Result E A → (A → Result E B) → Result E B
  ok a >>= f = f a
  thrown e >>= f = thrown e

  -- `value ?? throw e`
  abbrev pub or_throw : {A : Type 0} → E → Option A → Result E A
  or_throw e none = thrown e
  or_throw e (some a) = ok a

  -- `list.map(f)` where `f` may throw.
  abbrev pub traverse : {A B : Type 0} → (A → Result E B) → List A → Result E (List B)
  traverse f [] = ok []
  traverse f (x ∷ xs) = f x >>= λ y. traverse f xs >>= λ ys. ok (y ∷ ys)

  -- A chain of two calls that returned: what the first one returned led the second one to it.
  pub >>=-returned :
      {A B : Type 0} {y : B} (second : A → Result E B) (first : Result E A)
      → (first >>= second) ≡ ok y
      → (x : A) × ((second x ≡ ok y) × (first ≡ ok x))
  >>=-returned second (thrown e) returned = cc
  >>=-returned second (ok x) returned = (x, (returned, refl))

  -- The call returned a value, and the value has the property.
  pub data Gives {A : Type 0} (P : A → Type 0) : Result E A → Type 0 where
    gives : (a : A) → P a → Gives P (ok a)

  pub Gives-bind :
      {A B : Type 0} {P : A → Type 0} {Q : B → Type 0} {m : Result E A} (f : A → Result E B)
      → Gives P m
      → ((a : A) → P a → Gives Q (f a))
      → Gives Q (m >>= f)
  Gives-bind f (gives a p) h = h a p

  pub Gives-mono :
      {A : Type 0} {P Q : A → Type 0} {m : Result E A}
      → Gives P m
      → ((a : A) → P a → Q a)
      → Gives Q m
  Gives-mono (gives a p) h = gives a (h a p)

  pub Gives-if :
      {A : Type 0} {P : A → Type 0} (b : Bool) {x y : Result E A}
      → (b ≡ true → Gives P x)
      → (b ≡ false → Gives P y)
      → Gives P (if b then x else y)
  Gives-if true h k = h refl
  Gives-if false h k = k refl

  pub Gives-eq_ok :
      {A : Type 0} {P : A → Type 0} {m : Result E A} → Gives P m → (a : A) × (m ≡ ok a) × P a
  Gives-eq_ok (gives a p) = (a, refl, p)

  pub traverse-Gives :
      {A B : Type 0} {P : B → Type 0} (f : A → Result E B) (xs : List A)
      → All (λ x. Gives P (f x)) xs
      → Gives (All P) (traverse f xs)
  traverse-Gives f [] h = gives [] tt
  traverse-Gives f (x ∷ xs) (p, h) =
      Gives-bind _ p λ y py. Gives-bind _ (traverse-Gives f xs h) λ ys pys. gives (y ∷ ys) (py, pys)

  -- Whatever value the call returns has the property.
  pub record Ensures {A : Type 0} (P : A → Type 0) (m : Result E A) : Type 0 where
    pub holds : (a : A) → m ≡ ok a → P a

  pub Ensures-bind :
      {A B : Type 0} {Q : B → Type 0} (m : Result E A) {f : A → Result E B}
      → ((a : A) → m ≡ ok a → Ensures Q (f a))
      → Ensures Q (m >>= f)
  Ensures-bind m {f} h = record {
    holds = λ b e. let (a, (e2, e1)) = >>=-returned f m e in (h a e1).holds b e2;
  }

  abbrev value_or : {A : Type 0} → A → Result E A → A
  value_or a (ok b) = b
  value_or a (thrown e) = a

  pub ok-injective : {A : Type 0} {a b : A} → ◌≡◌ {A = Result E A} (ok a) (ok b) → a ≡ b
  ok-injective {A} {a} {b} e = ap (value_or a) e

  pub Ensures-ok : {A : Type 0} {P : A → Type 0} {a : A} → P a → Ensures P (ok a)
  Ensures-ok {P} p = record { holds = λ b e. subst P (ok-injective e) p }
