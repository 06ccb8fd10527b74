-- ===== src/Receiver/Spelling.antt =====
-- The types of a receiver and how they are spelled: `normalizeEtaReceiverType` of
-- packages/eta-core/src/receiver.ts on the text of a type.
--
-- The table of aliases is a plain JavaScript object. Its lookup also finds what every object
-- inherits: of those names the folding, which lowers the case, can yield `constructor`, where the
-- function `Object` stands, and `__proto__`, where the prototype of all objects stands, an object
-- with no fields of its own.
use einvoice.Prelude.{
  ℕ, Bool, false, ◌&&◌, ◌||◌, Option, none, some, List, [], ◌∷◌, Text, lit, text_eq, has, trim,
  is_space, to_lower, to_upper, Unicode, leb, ◌==◌, if◌then◌else◌,
}

pub data EtaReceiverType : Type 0 where
  business person foreign : EtaReceiverType

abbrev pub type_text : EtaReceiverType → Text
type_text business = lit "B"
type_text person = lit "P"
type_text foreign = lit "F"

-- What the lookup of an alias finds.
pub data Alias : Type 0 where
  eta_type : EtaReceiverType → Alias
  inherited_constructor inherited_prototype : Alias

-- `isEtaReceiverType`, with the type that it narrows to.
abbrev pub as_eta_receiver_type : Text → Option EtaReceiverType
as_eta_receiver_type s =
    if text_eq s (lit "B")
    then some business
    else if text_eq s (lit "P")
    then some person
    else if text_eq s (lit "F")
    then some foreign
    else none

abbrev pub business_aliases : List Text
business_aliases =
    lit "b"
    ∷ lit "business"
    ∷ lit "company"
    ∷ (0x634 ∷ 0x631 ∷ 0x643 ∷ 0x647 ∷ [])
    ∷ (0x634 ∷ 0x631 ∷ 0x643 ∷ 0x629 ∷ [])
    ∷ []

abbrev pub person_aliases : List Text
person_aliases = lit "p" ∷ lit "person" ∷ lit "personal" ∷ (0x634 ∷ 0x62e ∷ 0x635 ∷ 0x64a ∷ []) ∷ []

abbrev pub foreign_aliases : List Text
foreign_aliases =
    lit "f"
    ∷ lit "foreign"
    ∷ lit "foreigner"
    ∷ (0x627 ∷ 0x62c ∷ 0x646 ∷ 0x628 ∷ 0x64a ∷ [])
    ∷ (0x623 ∷ 0x62c ∷ 0x646 ∷ 0x628 ∷ 0x64a ∷ [])
    ∷ []

-- `RECEIVER_TYPE_ALIASES[key]`
unfoldable pub receiver_type_alias : Text → Option Alias
receiver_type_alias key =
    if has business_aliases key
    then some (eta_type business)
    else if has person_aliases key
    then some (eta_type person)
    else if has foreign_aliases key
    then some (eta_type foreign)
    else if text_eq key (lit "constructor")
    then some inherited_constructor
    else if text_eq key (lit "__proto__")
    then some inherited_prototype
    else none

abbrev is_mark : ℕ → Bool
is_mark c = (leb 0x64b c && leb c 0x652) || c == 0x670

-- The four replacements of single letters.
abbrev fold_letter : ℕ → ℕ
fold_letter c =
    if c == 0x623 || c == 0x625 || c == 0x622
    then 0x627
    else if c == 0x629
    then 0x647
    else if c == 0x649
    then 0x64a
    else c

abbrev fold_letters : Text → Text
fold_letters [] = []
fold_letters (c ∷ s) = if is_mark c then fold_letters s else fold_letter c ∷ fold_letters s

-- `replace(/\s+/g, ' ')`, after a space or not.
abbrev collapse : Bool → Text → Text
collapse after [] = []
collapse after (c ∷ s) =
    let rest = collapse (is_space c) s in
    if is_space c then (if after then rest else b' ' ∷ rest) else c ∷ rest

abbrev pub or_fallback : Option EtaReceiverType → EtaReceiverType → Alias
or_fallback none fallback = eta_type fallback
or_fallback (some t) fallback = eta_type t

-- `if (aliased) return aliased`
abbrev pub or_alias : Option Alias → Alias → Alias
or_alias none other = other
or_alias (some found) other = found

module _ ⦃u : Unicode⦄ where
  unfoldable pub fold_receiver_type : Text → Text
  unfolding trim
  fold_receiver_type raw = to_lower (collapse false (fold_letters (trim raw)))

  abbrev pub type_of_text : Text → EtaReceiverType → Alias
  type_of_text [] fallback = eta_type fallback
  type_of_text (c ∷ s) fallback =
      or_alias (receiver_type_alias (fold_receiver_type (c ∷ s)))
        (or_fallback (as_eta_receiver_type (to_upper (c ∷ s))) fallback)
