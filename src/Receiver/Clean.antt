-- ===== src/Receiver/Clean.antt =====
-- packages/eta-core/src/receiver.ts: no null, blank or untrimmed value reaches the receiver.
use einvoice.Prelude.{
  ◌≡◌, refl, Bool, true, false, not, ◌&&◌, ◌||◌, Bool-cases, Option, none, some, [], ◌∷◌, Text, lit,
  text_eq, text_eq_self, eq_of_text_eq, has, inl, inr, ◌⊎◌, Unicode, trim, is_blank, trim-trim,
  trim-cases, and_parts, arith,
}
use einvoice.Money.{Numerics}
use einvoice.Json.{
  object_constructor, Json, null, bool, num, str, arr, obj, Fields, end, field, set_field,
}
use einvoice.Receiver.{
  text_value, address_of, EtaReceiverType, foreign, business, person, type_text, alias_value,
  compact_value, set_some, core_keys, extras_loop, set_text, set_object, receiver_fields,
  receiver_core, address_loop, unless_empty, compact_eta_address, eta_receiver_for_document,
  clean_string,
}
use einvoice.Receiver.Types.{
  inherits_type, sent_alias, eta_receiver_for_document-sent_alias, alias_value-own,
}

-- A text that ETA takes: not blank, and with no space at its ends.
abbrev clean_text : Text → Bool
clean_text s = not (is_blank s) && text_eq (trim s) s

module _ {N : Type 0} where
  -- A text that ETA takes, a number or a Boolean.
  abbrev pub clean_value : Json N → Bool
  clean_value (str s) = clean_text s
  clean_value (num x) = true
  clean_value (bool b) = true
  clean_value object_constructor = false
  clean_value null = false
  clean_value (arr xs) = false
  clean_value (obj fs) = false

  abbrev pub clean_address : Fields N → Bool
  clean_address end = true
  clean_address (field k v fs) = clean_value v && clean_address fs

  -- The value of a field of the receiver: its address may be an object of such values.
  abbrev pub clean_field : Text → Json N → Bool
  clean_field k (obj fs) = text_eq k (lit "address") && clean_address fs
  clean_field k v = clean_value v

  -- A field of the receiver; its type is judged too, or not.
  abbrev pub clean_entry : Bool → Text → Json N → Bool
  clean_entry typed k v = (not typed && text_eq k (lit "type")) || clean_field k v

  abbrev pub clean_receiver : Bool → Fields N → Bool
  clean_receiver typed end = true
  clean_receiver typed (field k v fs) = clean_entry typed k v && clean_receiver typed fs

  clean_field-value : (k : Text) (v : Json N) → clean_value v ≡ true → clean_field k v ≡ true
  clean_field-value k null h = h
  clean_field-value k (bool b) h = h
  clean_field-value k object_constructor h = h
  clean_field-value k (num x) h = h
  clean_field-value k (str s) h = h
  clean_field-value k (arr xs) h = h
  clean_field-value k (obj fs) h = ground arith

  clean_entry-value :
      (typed : Bool) (k : Text) (v : Json N) → clean_value v ≡ true → clean_entry typed k v ≡ true
  clean_entry-value typed k v h = ground (arith, clean_field-value k v h)

  clean_address-set_field :
      (fs : Fields N) (k : Text) (v : Json N)
      → clean_address fs ≡ true
      → clean_value v ≡ true
      → clean_address (set_field fs k v) ≡ true
  unfolding set_field
  clean_address-set_field end k v h c = ground arith
  clean_address-set_field (field j w fs) k v h c = ground (arith, clean_address-set_field fs k v)

  clean_receiver-set_field :
      (typed : Bool) (fs : Fields N) (k : Text) (v : Json N)
      → clean_receiver typed fs ≡ true
      → clean_entry typed k v ≡ true
      → clean_receiver typed (set_field fs k v) ≡ true
  unfolding set_field
  clean_receiver-set_field typed end k v h c = ground arith
  clean_receiver-set_field typed (field j w fs) k v h c =
      let (first, others) = and_parts (clean_entry typed j w) (clean_receiver typed fs) h in
      elim (Bool-cases (text_eq j k)) [
        | inl e ↦ rw e (rw (eq_of_text_eq j k e) (rw (c, others) refl))
        | inr e ↦ rw e (rw (first, clean_receiver-set_field typed fs k v others c) refl)
      ]

clean_type : (t : EtaReceiverType) → clean_text (type_text t) ≡ true
unfolding trim
clean_type business = refl
clean_type person = refl
clean_type foreign = refl

clean_typed :
    (N : Type 0) (typed : Bool) (v : Json N)
    → (typed ≡ true → clean_value v ≡ true)
    → clean_receiver typed (field (lit "type") v end) ≡ true
clean_typed N true v h = rw (clean_entry-value true (lit "type") v (h refl)) refl
clean_typed N false v h = refl

-- What `trim` leaves is nothing, or clean.
clean_text-trim : (s : Text) → (trim s ≡ []) ⊎ (clean_text (trim s) ≡ true)
clean_text-trim s = elim (trim-cases s) [
  | inl e ↦ inl e
  | inr e ↦ inr (rw (e, trim-trim s) (text_eq_self (trim s)))
]

module _ {N : Type 0} where
  clean_receiver-set_text :
      (typed : Bool) (out : Fields N) (k s : Text)
      → clean_receiver typed out ≡ true
      → (s ≡ []) ⊎ (clean_text s ≡ true)
      → clean_receiver typed (set_text out k s) ≡ true
  clean_receiver-set_text typed out k [] h c = h
  clean_receiver-set_text typed out k (d ∷ ds) h (inl e) = cc
  clean_receiver-set_text typed out k (d ∷ ds) h (inr c) =
      clean_receiver-set_field typed out k (str (d ∷ ds)) h
        (clean_entry-value {N = N} typed k (str (d ∷ ds)) c)

  abbrev CleanOption : Option (Json N) → Type 0
  CleanOption none = Unit
  CleanOption (some v) = clean_value v ≡ true

text_value-CleanOption :
    (N : Type 0) (s : Text) → (s ≡ []) ⊎ (clean_text s ≡ true) → CleanOption {N = N} (text_value s)
text_value-CleanOption N [] h = tt
text_value-CleanOption N (c ∷ s) (inl e) = cc
text_value-CleanOption N (c ∷ s) (inr h) = h

module _ {N : Type 0} where
  compact_value-CleanOption : (v : Json N) → CleanOption (compact_value v)
  unfolding compact_value
  compact_value-CleanOption null = tt
  compact_value-CleanOption (bool b) = refl
  compact_value-CleanOption object_constructor = tt
  compact_value-CleanOption (num x) = refl
  compact_value-CleanOption (str s) = text_value-CleanOption N (trim s) (clean_text-trim s)
  compact_value-CleanOption (arr xs) = tt
  compact_value-CleanOption (obj fs) = tt

  clean_address-set_some :
      (out : Fields N) (k : Text) (o : Option (Json N))
      → clean_address out ≡ true
      → CleanOption o
      → clean_address (set_some out k o) ≡ true
  clean_address-set_some out k none h c = h
  clean_address-set_some out k (some v) h c = clean_address-set_field out k v h c

  clean_receiver-set_some :
      (typed : Bool) (out : Fields N) (k : Text) (o : Option (Json N))
      → clean_receiver typed out ≡ true
      → CleanOption o
      → clean_receiver typed (set_some out k o) ≡ true
  clean_receiver-set_some typed out k none h c = h
  clean_receiver-set_some typed out k (some v) h c =
      clean_receiver-set_field typed out k v h (clean_entry-value typed k v c)

  clean_address-address_loop :
      (out fs : Fields N) → clean_address out ≡ true → clean_address (address_loop out fs) ≡ true
  unfolding address_loop
  clean_address-address_loop out end h = h
  clean_address-address_loop out (field k v fs) h =
      clean_address-address_loop (set_some out k (compact_value v)) fs
        (clean_address-set_some out k (compact_value v) h (compact_value-CleanOption v))

  clean_receiver-extras_loop :
      (typed : Bool) (out fs : Fields N)
      → clean_receiver typed out ≡ true
      → clean_receiver typed (extras_loop out fs) ≡ true
  unfolding extras_loop
  clean_receiver-extras_loop typed out end h = h
  clean_receiver-extras_loop typed out (field k v fs) h = elim (Bool-cases (has core_keys k)) [
    | inl e ↦ rw e (clean_receiver-extras_loop typed out fs h)
    | inr e ↦ rw e (
        clean_receiver-extras_loop typed (set_some out k (compact_value v)) fs
          (clean_receiver-set_some typed out k (compact_value v) h (compact_value-CleanOption v)))
  ]

  abbrev CleanObject : Option (Fields N) → Type 0
  CleanObject none = Unit
  CleanObject (some fs) = clean_address fs ≡ true

  unless_empty-CleanObject :
      (fs : Fields N) → clean_address fs ≡ true → CleanObject (unless_empty fs)
  unless_empty-CleanObject end h = tt
  unless_empty-CleanObject (field k v fs) h = h

  address_of-CleanObject : (o : Option (Fields N)) → CleanObject (address_of o)
  address_of-CleanObject none = tt
  address_of-CleanObject (some src) =
      unless_empty-CleanObject (address_loop end src) (clean_address-address_loop end src refl)

  clean_receiver-set_address :
      (typed : Bool) (out : Fields N) (o : Option (Fields N))
      → clean_receiver typed out ≡ true
      → CleanObject o
      → clean_receiver typed (set_object out (lit "address") o) ≡ true
  clean_receiver-set_address typed out none h c = h
  clean_receiver-set_address typed out (some fs) h c =
      clean_receiver-set_field typed out (lit "address") (obj fs) h (ground arith)

  clean_receiver-receiver_core :
      (typed : Bool) (t : Json N) (id name : Text) (address : Option (Fields N))
      → (typed ≡ true → clean_value t ≡ true)
      → (id ≡ []) ⊎ (clean_text id ≡ true)
      → (name ≡ []) ⊎ (clean_text name ≡ true)
      → CleanObject address
      → clean_receiver typed (receiver_core t id name address) ≡ true
  clean_receiver-receiver_core typed t id name address own i m a =
      let core = field (lit "type") t end in
      let with_id =
        clean_receiver-set_text typed core (lit "id") id (clean_typed N typed t own) i in
      clean_receiver-set_address typed (set_text (set_text core (lit "id") id) (lit "name") name)
        address
        (clean_receiver-set_text typed (set_text core (lit "id") id) (lit "name") name with_id m) a

module _ ⦃n : Numerics⦄ where
  clean_string-cases :
      (o : Option (Json n.Double)) → (clean_string o ≡ []) ⊎ (clean_text (clean_string o) ≡ true)
  unfolding clean_string
  clean_string-cases none = inl refl
  clean_string-cases (some null) = inl refl
  clean_string-cases (some (bool b)) = clean_text-trim _
  clean_string-cases (some object_constructor) = clean_text-trim _
  clean_string-cases (some (num x)) = clean_text-trim _
  clean_string-cases (some (str s)) = clean_text-trim _
  clean_string-cases (some (arr xs)) = clean_text-trim _
  clean_string-cases (some (obj fs)) = clean_text-trim _

  -- The receiver with a type, whatever the source, is clean if the type is.
  clean_receiver-receiver_fields :
      (typed : Bool) (t : Json n.Double) (src : Fields n.Double)
      → (typed ≡ true → clean_value t ≡ true)
      → clean_receiver typed (receiver_fields t src) ≡ true
  unfolding receiver_fields compact_eta_address
  clean_receiver-receiver_fields typed t src own = clean_receiver-extras_loop typed _ src (
      clean_receiver-receiver_core typed t _ _ _ own (clean_string-cases _) (clean_string-cases _)
        (address_of-CleanObject _))

false_of_not : (b : Bool) → not b ≡ true → b ≡ false
false_of_not true h = cc
false_of_not false h = refl

module _ ⦃u : Unicode⦄ ⦃n : Numerics⦄ where
  clean_value-sent_alias :
      (kind : Text) (raw : Option (Json n.Double))
      → not (inherits_type kind raw) ≡ true
      → clean_value {N = n.Double} (alias_value (sent_alias kind raw)) ≡ true
  clean_value-sent_alias kind raw own =
      let (t, e) = alias_value-own kind raw (false_of_not _ own) in rw e (clean_type t)

  -- Each field of the receiver of a document is a number, a Boolean, or a text that is not blank and
  -- has no space at its ends; only the address is an object, and of such values. This holds whatever
  -- the source, save for the type where the kind does not start with EXPORT and the text of the
  -- source's type folds to `constructor` or `__proto__`.
  pub clean_receiver-eta_receiver_for_document :
      (kind : Text) (raw : Option (Json n.Double))
      → clean_receiver (not (inherits_type kind raw)) (eta_receiver_for_document kind raw) ≡ true
  clean_receiver-eta_receiver_for_document kind raw =
      rw (eta_receiver_for_document-sent_alias kind raw) (
        clean_receiver-receiver_fields (not (inherits_type kind raw)) _ _
          (clean_value-sent_alias kind raw))
