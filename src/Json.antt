-- ===== src/Json.antt =====
-- JSON values, as packages/eta-core/src/canonical-serialize.ts types them (`JsonValue`), over the
-- type `N` of numbers. The fields of an object stand in the order of `Object.entries`; that order
-- is the insertion order, since no key of the documents is an array index; none is `__proto__`,
-- which an assignment would not create. The last constructor is the function `Object`, which is no
-- JSON: the lookup of an alias in packages/eta-core/src/receiver.ts may return it.
pub mod Objects
pub mod Canonical
pub mod Strings
pub mod Signatures
mod Tests
use einvoice.Prelude.{
  ◌≡◌, Bool, true, false, ◌&&◌, Option, none, some, List, [], ◌∷◌, ◌++◌, Text, lit, text_eq,
  if◌then◌else◌, ◌||◌, not,
}

mutual
  pub data Json (N : Type 0) : Type 0 where
    null : Json N
    bool : Bool → Json N
    num : N → Json N
    str : Text → Json N
    arr : Items N → Json N
    obj : Fields N → Json N
    object_constructor : Json N

  pub data Items (N : Type 0) : Type 0 where
    nil : Items N
    cons : Json N → Items N → Items N

  pub data Fields (N : Type 0) : Type 0 where
    end : Fields N
    field : Text → Json N → Fields N → Fields N

-- `String(Object)`
abbrev pub object_constructor_text : Text
object_constructor_text = lit "function Object() { [native code] }"

module _ {N : Type 0} where
  -- `obj[key]`
  unfoldable pub get_field : Fields N → Text → Option (Json N)
  get_field end k = none
  get_field (field j v fs) k = if text_eq j k then some v else get_field fs k

  -- `obj[key] = value`, and `{ ...obj, key: value }`
  unfoldable pub set_field : Fields N → Text → Json N → Fields N
  set_field end k v = field k v end
  set_field (field j w fs) k v = if text_eq j k then field j v fs else field j w (set_field fs k v)

  abbrev pub has_key : Fields N → Text → Bool
  has_key end k = false
  has_key (field j v fs) k = text_eq j k || has_key fs k

  -- The keys of an object are different.
  abbrev pub IsObject : Fields N → Type 0
  IsObject end = Unit
  IsObject (field k v fs) = (has_key fs k ≡ false) × IsObject fs

  abbrev pub items : List (Json N) → Items N
  items [] = nil
  items (x ∷ xs) = cons x (items xs)
