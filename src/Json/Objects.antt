-- ===== src/Json/Objects.antt =====
-- The laws of reading and writing the fields of an object.
use einvoice.Prelude.{
  ◌≡◌, refl, ◌∙◌, true, false, some, List, Text, text_eq, eq_of_text_eq, has, text_eq_iff,
  text_eq_self, arith, if◌then◌else◌, Bool-cases, inl, inr, ◌||◌,
}
use einvoice.Json.{Json, Fields, end, field, get_field, set_field, has_key, IsObject}

module _ {N : Type 0} where
  pub get_field-set_field :
      (fs : Fields N) (k j : Text) (v : Json N)
      → get_field (set_field fs k v) j ≡ (if text_eq k j then some v else get_field fs j)
  unfolding get_field set_field
  get_field-set_field end k j v = refl
  get_field-set_field (field i w fs) k j v =
      ground
        (arith, text_eq_iff k j, text_eq_iff i k, text_eq_iff i j, get_field-set_field fs k j v)

  pub set_field-set_field :
      (fs : Fields N) (k : Text) (v w : Json N)
      → set_field (set_field fs k v) k w ≡ set_field fs k w
  unfolding set_field
  set_field-set_field end k v w = ground (arith, text_eq_self k)
  set_field-set_field (field i x fs) k v w =
      ground (arith, text_eq_iff i k, set_field-set_field fs k v w)

  pub has_key-set_field :
      (fs : Fields N) (k j : Text) (v : Json N)
      → has_key (set_field fs k v) j ≡ (text_eq k j || has_key fs j)
  unfolding set_field
  has_key-set_field end k j v = refl
  has_key-set_field (field i w fs) k j v =
      ground (arith, text_eq_iff k j, text_eq_iff i k, text_eq_iff i j, has_key-set_field fs k j v)

  pub set_field-IsObject :
      (fs : Fields N) (k : Text) (v : Json N) → IsObject fs → IsObject (set_field fs k v)
  unfolding set_field
  set_field-IsObject end k v h = (refl, tt)
  set_field-IsObject (field i w fs) k v (a, h) = elim (Bool-cases (text_eq i k)) [
    | inl e ↦ rw e (a, h)
    | inr e ↦ rw e (
      ground (arith, text_eq_iff i k, text_eq_iff k i, has_key-set_field fs k i v),
      set_field-IsObject fs k v h,
    )
  ]

  -- A key among others is not written by setting a key that is none of them.
  pub get_field-set_other :
      (keys : List Text) (fs : Fields N) (k j : Text) (v : Json N)
      → has keys j ≡ true
      → has keys k ≡ false
      → get_field (set_field fs k v) j ≡ get_field fs j
  get_field-set_other keys fs k j v inside outside = elim (Bool-cases (text_eq k j)) [
    | inl e ↦ let same = eq_of_text_eq k j e in cc
    | inr e ↦ get_field-set_field fs k j v ∙ rw e refl
  ]
