-- ===== src/Receiver/Types.antt =====
-- packages/eta-core/src/receiver.ts: the `type` of the receiver that a document is sent with.
use einvoice.Prelude.{
  List, not, ◌&&◌, ap, if◌then◌else◌, Bool, false, ◌≡◌, refl, ◌∙◌, true, Bool-cases, Option, none,
  some, [], ◌∷◌, Text, lit, text_eq, eq_of_text_eq, has, inl, inr, ◌⊎◌, Unicode, to_upper,
}
use einvoice.Money.{Numerics}
use einvoice.Json.{Json, str, Fields, end, field, get_field, set_field}
use einvoice.Json.Objects.{get_field-set_field}
use einvoice.Receiver.{
  EtaReceiverType, foreign, person, business, business_aliases, person_aliases, foreign_aliases,
  type_text, Alias, eta_type, starts_with, pick_field, as_record, compact_value, set_some,
  core_keys, extras_loop, receiver_core, receiver_fields, alias_value, compact_eta_receiver,
  eta_receiver_for_document, record_or_empty, normalize_eta_receiver_type, type_of_text,
  or_fallback, receiver_type_alias, as_eta_receiver_type, fold_receiver_type, clean_string,
}

-- The names that the folding can yield and that every object inherits.
abbrev pub inherited_names : List Text
inherited_names = lit "constructor" ∷ lit "__proto__" ∷ []

abbrev alias_of : Option EtaReceiverType → Option Alias
alias_of none = none
alias_of (some t) = some (eta_type t)

not_core : (k j : Text) → has core_keys j ≡ true → has core_keys k ≡ false → text_eq k j ≡ false
not_core k j core other = elim (Bool-cases (text_eq k j)) [
  | inl e ↦ let same = eq_of_text_eq k j e in cc
  | inr e ↦ e
]

module _ {N : Type 0} where
  get_field-set_some :
      (out : Fields N) (k j : Text) (v : Option (Json N))
      → text_eq k j ≡ false
      → get_field (set_some out k v) j ≡ get_field out j
  get_field-set_some out k j none e = refl
  get_field-set_some out k j (some v) e = get_field-set_field out k j v ∙ rw e refl

  -- An extra never has a key of the receiver's own.
  pub get_field-extras_loop :
      (out fs : Fields N) (j : Text)
      → has core_keys j ≡ true
      → get_field (extras_loop out fs) j ≡ get_field out j
  unfolding extras_loop
  get_field-extras_loop out end j core = refl
  get_field-extras_loop out (field k v fs) j core = elim (Bool-cases (has core_keys k)) [
    | inl e ↦ rw e (get_field-extras_loop out fs j core)
    | inr e ↦ rw e (
        get_field-extras_loop (set_some out k (compact_value v)) fs j core
        ∙ get_field-set_some out k j (compact_value v) (not_core k j core e))
  ]

  get_field-receiver_core :
      (t : Json N) (id name : Text) (address : Option (Fields N))
      → get_field (receiver_core t id name address) (lit "type") ≡ some t
  unfolding get_field set_field
  get_field-receiver_core t [] [] none = refl
  get_field-receiver_core t [] [] (some a) = refl
  get_field-receiver_core t [] (d ∷ ds) none = refl
  get_field-receiver_core t [] (d ∷ ds) (some a) = refl
  get_field-receiver_core t (c ∷ cs) [] none = refl
  get_field-receiver_core t (c ∷ cs) [] (some a) = refl
  get_field-receiver_core t (c ∷ cs) (d ∷ ds) none = refl
  get_field-receiver_core t (c ∷ cs) (d ∷ ds) (some a) = refl

module _ ⦃n : Numerics⦄ where
  pub get_field-receiver_fields :
      (t : Json n.Double) (src : Fields n.Double)
      → get_field (receiver_fields t src) (lit "type") ≡ some t
  unfolding receiver_fields
  get_field-receiver_fields t src =
      get_field-extras_loop _ src (lit "type") refl ∙ get_field-receiver_core t _ _ _

receiver_type_alias-cases :
    (key : Text)
    → ((a : Option EtaReceiverType) × (receiver_type_alias key ≡ alias_of a))
      ⊎ (has inherited_names key ≡ true)
unfolding receiver_type_alias
receiver_type_alias-cases key = elim (Bool-cases (has business_aliases key)) [
  | inl e ↦ rw e (inl (some business, refl))
  | inr e ↦ rw e (elim (Bool-cases (has person_aliases key)) [
    | inl e2 ↦ rw e2 (inl (some person, refl))
    | inr e2 ↦ rw e2 (elim (Bool-cases (has foreign_aliases key)) [
      | inl e3 ↦ rw e3 (inl (some foreign, refl))
      | inr e3 ↦ rw e3 (elim (Bool-cases (text_eq key (lit "constructor"))) [
        | inl e4 ↦ inr (rw (eq_of_text_eq key (lit "constructor") e4) refl)
        | inr e4 ↦ rw e4 (elim (Bool-cases (text_eq key (lit "__proto__"))) [
          | inl e5 ↦ inr (rw (eq_of_text_eq key (lit "__proto__") e5) refl)
          | inr e5 ↦ rw e5 (inl (none, refl))
        ])
      ])
    ])
  ])
]

module _ ⦃u : Unicode⦄ where
  or_fallback-type :
      (o : Option EtaReceiverType) (f : EtaReceiverType)
      → (t : EtaReceiverType) × (or_fallback o f ≡ eta_type t)
  or_fallback-type none f = (f, refl)
  or_fallback-type (some t) f = (t, refl)

  type_of_text-cases :
      (s : Text) (f : EtaReceiverType)
      → ((t : EtaReceiverType) × (type_of_text s f ≡ eta_type t))
        ⊎ (has inherited_names (fold_receiver_type s) ≡ true)
  type_of_text-cases [] f = inl (f, refl)
  type_of_text-cases (c ∷ s) f = elim (receiver_type_alias-cases (fold_receiver_type (c ∷ s))) [
    | inl (none, e) ↦ inl (rw e (or_fallback-type (as_eta_receiver_type (to_upper (c ∷ s))) f))
    | inl (some t, e) ↦ inl (t, rw e refl)
    | inr e ↦ inr e
  ]

module _ ⦃u : Unicode⦄ ⦃n : Numerics⦄ where
  -- The text that the type of a receiver is read from.
  abbrev pub source_type : Option (Json n.Double) → Text
  source_type raw =
      clean_string (pick_field (record_or_empty (as_record raw)) (lit "type" ∷ lit "Type" ∷ []))

  -- The type of a document that is no export is looked up by a name that the table of aliases
  -- inherits from `Object.prototype`: `constructor` or `__proto__`.
  abbrev pub inherits_type : Text → Option (Json n.Double) → Bool
  inherits_type kind raw =
      not (starts_with (lit "EXPORT") kind)
      && has inherited_names (fold_receiver_type (source_type raw))

  -- What the type of the receiver is found as.
  abbrev pub sent_alias : Text → Option (Json n.Double) → Alias
  sent_alias kind raw =
      if starts_with (lit "EXPORT") kind
      then eta_type foreign
      else type_of_text (source_type raw) business

  sent_alias-cases :
      (kind : Text) (raw : Option (Json n.Double))
      → ((t : EtaReceiverType) × (sent_alias kind raw ≡ eta_type t)
          × (starts_with (lit "EXPORT") kind ≡ true → t ≡ foreign))
        ⊎ (inherits_type kind raw ≡ true)
  sent_alias-cases kind raw = elim (Bool-cases (starts_with (lit "EXPORT") kind)) [
    | inl e ↦ inl (foreign, rw e refl, λ x. refl)
    | inr e ↦ elim (type_of_text-cases (source_type raw) business) [
      | inl (t, typed) ↦ inl (t, rw e typed, λ x. cc)
      | inr named ↦ inr (rw (e, named) refl)
    ]
  ]

  pub eta_receiver_for_document-sent_alias :
      (kind : Text) (raw : Option (Json n.Double))
      → eta_receiver_for_document kind raw
        ≡ receiver_fields (alias_value (sent_alias kind raw)) (record_or_empty (as_record raw))
  unfolding eta_receiver_for_document compact_eta_receiver normalize_eta_receiver_type
  eta_receiver_for_document-sent_alias kind raw = refl

  -- The `type` of the receiver is that of `t`.
  abbrev pub HasType : Fields n.Double → EtaReceiverType → Type 0
  HasType fs t = get_field fs (lit "type") ≡ some (str (type_text t))

  sent_alias-HasType :
      (kind : Text) (raw : Option (Json n.Double)) (t : EtaReceiverType)
      → sent_alias kind raw ≡ eta_type t
      → HasType (eta_receiver_for_document kind raw) t
  sent_alias-HasType kind raw t e =
      rw (eta_receiver_for_document-sent_alias kind raw) (rw e (get_field-receiver_fields _ _))

  -- The receiver of a document of any kind has one of the types B, P and F, and F where the kind
  -- starts with EXPORT, unless the kind does not and the text of the source's type folds to
  -- `constructor` or `__proto__`.
  pub eta_receiver_for_document-HasType :
      (kind : Text) (raw : Option (Json n.Double))
      → ((t : EtaReceiverType) × HasType (eta_receiver_for_document kind raw) t
          × (starts_with (lit "EXPORT") kind ≡ true → t ≡ foreign))
        ⊎ (inherits_type kind raw ≡ true)
  eta_receiver_for_document-HasType kind raw = elim (sent_alias-cases kind raw) [
    | inl (t, e, exported) ↦ inl (t, sent_alias-HasType kind raw t e, exported)
    | inr named ↦ inr named
  ]

  -- The type of a receiver, which is F for an export document.
  pub record IsTyped (exporting : Bool) (fs : Fields n.Double) : Type 0 where
    pub type : EtaReceiverType
    pub type_field : get_field fs (lit "type") ≡ some (str (type_text type))
    pub exported : exporting ≡ true → type ≡ foreign

  pub eta_receiver_for_document-IsTyped :
      (kind : Text) (raw : Option (Json n.Double))
      → inherits_type kind raw ≡ false
      → IsTyped (starts_with (lit "EXPORT") kind) (eta_receiver_for_document kind raw)
  eta_receiver_for_document-IsTyped kind raw own =
      elim (eta_receiver_for_document-HasType kind raw) [
        | inl (t, typed, exported) ↦ record { type = t; type_field = typed; exported = exported }
        | inr named ↦ cc
      ]

  -- A text, unless the type is inherited.
  pub alias_value-own :
      (kind : Text) (raw : Option (Json n.Double))
      → inherits_type kind raw ≡ false
      → (t : EtaReceiverType) × (alias_value {N = n.Double} (sent_alias kind raw)
          ≡ str (type_text t))
  alias_value-own kind raw own = elim (sent_alias-cases kind raw) [
    | inl (t, e, exported) ↦ (t, ap alias_value e)
    | inr named ↦ cc
  ]
