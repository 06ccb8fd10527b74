-- ===== src/Issuer/Completeness.antt =====
-- The completeness of an address that packages/eta-core/src/issuer-address.ts resolves.
use einvoice.Prelude.{
  ℕ, ◌≡◌, refl, ◌∙◌, ap, sym, inl, inr, ◌⊎◌, Bool, true, false, Option, none, some, List, [], ◌∷◌,
  Text, trim, trim_start, trim_end, is_space, Bool-cases,
}
use einvoice.Issuer.{
  Field, branch_id, country, governate, region_city, street, building_number, postal_code, floor,
  room, landmark, additional_information, IssuerAddress, Defaults, clean, or_last, non_blank,
  override, defaulted, normalize_issuer_address, resolved_field, resolve_issuer_address,
  without_value, no_field, missing_before, required_issuer_address_fields,
  missing_issuer_address_fields, is_issuer_address_complete,
}

-- A text that does not start with a space.
data Starts : Text → Type 0 where
  nothing : Starts []
  starts : (c : ℕ) (s : Text) → is_space c ≡ false → Starts (c ∷ s)

trim_start-Starts : (s : Text) → Starts (trim_start s)
trim_start-Starts [] = nothing
trim_start-Starts (c ∷ s) = elim (Bool-cases (is_space c)) [
  | inl e ↦ rw (e, trim_start) (trim_start-Starts s)
  | inr e ↦ rw (e, trim_start) (starts c s e)
]

trim_end-Starts : (s : Text) → Starts s → Starts (trim_end s)
trim_end-Starts _ nothing = nothing
trim_end-Starts _ (starts c s h) = rw h (starts c (trim_end s) h)

trim-Starts : (s : Text) → Starts (trim s)
unfolding trim
trim-Starts s = trim_end-Starts (trim_start s) (trim_start-Starts s)

abbrev pub is_none : Option Text → Bool
is_none none = true
is_none (some v) = false

-- A value that is present after trimming.
data Present : Option Text → Type 0 where
  present : (c : ℕ) (s : Text) → is_space c ≡ false → Present (some (c ∷ s))

clean-Starts : (o : Option Text) → Starts (clean o)
clean-Starts none = nothing
clean-Starts (some v) = trim-Starts v

clean-Present : (o : Option Text) → Present o → is_none (non_blank (clean o)) ≡ false
unfolding trim
clean-Present _ (present c s h) = rw h (rw h refl)

non_blank-Present : (t : Text) → Starts t → (non_blank t ≡ none) ⊎ Present (non_blank t)
non_blank-Present _ nothing = inl refl
non_blank-Present _ (starts c s h) = inr (present c s h)

-- A field of a normalized address is absent, or a text that starts with no space.
normalize-Present :
    (a : Option IssuerAddress) (f : Field)
    → (normalize_issuer_address a f ≡ none) ⊎ Present (normalize_issuer_address a f)
unfolding normalize_issuer_address
normalize-Present none f = inl refl
normalize-Present (some a) f = non_blank-Present (clean (a f)) (clean-Starts (a f))

-- What is present stays present when the address is normalized again.
normalize-keeps :
    (a : IssuerAddress) (f : Field)
    → Present (a f)
    → is_none (normalize_issuer_address (some a) f) ≡ false
unfolding normalize_issuer_address
normalize-keeps a f p = clean-Present (a f) p

override-some : (s o : Option Text) → Present o → Present (override s o)
override-some s _ (present c t h) = present c t h

override-Present : (s o : Option Text) → Present s → (o ≡ none) ⊎ Present o → Present (override s o)
override-Present s o p (inl e) = rw (e, override) p
override-Present s _ p (inr (present c t h)) = present c t h

resolved_field-Present :
    (d : Defaults) (f : Field) (o : Option Text) → Present o → Present (resolved_field d f o)
resolved_field-Present d branch_id _ (present c s h) = present c s h
resolved_field-Present d country _ (present c s h) = present c s h
resolved_field-Present d governate o p = p
resolved_field-Present d region_city o p = p
resolved_field-Present d street o p = p
resolved_field-Present d building_number o p = p
resolved_field-Present d postal_code o p = p
resolved_field-Present d floor o p = p
resolved_field-Present d room o p = p
resolved_field-Present d landmark o p = p
resolved_field-Present d additional_information o p = p

or_last-Present :
    (t : Text) (c : ℕ) (last : Text)
    → is_space c ≡ false
    → Starts t
    → Present (or_last t (c ∷ last))
or_last-Present _ c last h nothing = present c last h
or_last-Present _ c last h (starts e s k) = present e s k

some-Present : (o : Option Text) → (o ≡ none) ⊎ Present o → is_none o ≡ false → Present o
some-Present o (inr p) h = p
some-Present o (inl e) h = let k = sym h ∙ ap is_none e in cc

override-absent :
    (s o : Option Text)
    → (s ≡ none) ⊎ Present s
    → (o ≡ none) ⊎ Present o
    → (override s o ≡ none) ⊎ Present (override s o)
override-absent s o p (inl e) = rw (e, override) p
override-absent s o p (inr q) = inr (override-some s o q)

defaulted-Present :
    (o d : Option Text) (c : ℕ) (last : Text)
    → is_space c ≡ false
    → (o ≡ none) ⊎ Present o
    → Present (defaulted o d (c ∷ last))
defaulted-Present _ d c last h (inr (present e s k)) = present e s k
defaulted-Present o d c last h (inl e) =
    rw (e, defaulted) (or_last-Present (clean d) c last h (clean-Starts d))

missing_before-nil :
    (o : Option Text) (f : Field) (rest : List Field)
    → missing_before o f rest ≡ []
    → (is_none o ≡ false) × (rest ≡ [])
missing_before-nil none f rest h = cc
missing_before-nil (some v) f rest h = (refl, h)

missing_before-skips :
    (o : Option Text) (f : Field) (rest : List Field)
    → is_none o ≡ false
    → missing_before o f rest ≡ rest
missing_before-skips none f rest h = cc
missing_before-skips (some v) f rest h = refl

no_field-nil : (fs : List Field) → no_field fs ≡ true → fs ≡ []
no_field-nil [] h = refl
no_field-nil (f ∷ fs) h = cc

module _ (settings overrides : Option IssuerAddress) (defaults : Defaults) where
  abbrev pub resolved : IssuerAddress
  resolved = resolve_issuer_address settings overrides defaults

  resolve-Present :
      (f : Field)
      → is_none (normalize_issuer_address settings f) ≡ false
      → is_none (normalize_issuer_address (some resolved) f) ≡ false
  resolve-Present f h = normalize-keeps resolved f (
      unfold resolve_issuer_address in
      resolved_field-Present defaults f _ (
        override-Present _ _ (some-Present _ (normalize-Present settings f) h)
          (normalize-Present overrides f)))

  merged-Present :
      (f : Field)
      → (override (normalize_issuer_address settings f) (normalize_issuer_address overrides f)
          ≡ none)
        ⊎ Present
            (override (normalize_issuer_address settings f) (normalize_issuer_address overrides f))
  merged-Present f =
      override-absent _ _ (normalize-Present settings f) (normalize-Present overrides f)

  without_value-keeps :
      (fs : List Field)
      → without_value (normalize_issuer_address settings) fs ≡ []
      → without_value (normalize_issuer_address (some resolved)) fs ≡ []
  without_value-keeps [] h = refl
  without_value-keeps (f ∷ fs) h =
      let (some_value, rest) = missing_before-nil _ f _ h in
      missing_before-skips _ f _ (resolve-Present f some_value) ∙ without_value-keeps fs rest

  -- Whatever the settings, the overrides and the defaults, the resolved address has a branch and a
  -- country.
  pub resolve_issuer_address-located :
      (is_none (normalize_issuer_address (some resolved) branch_id) ≡ false)
      × (is_none (normalize_issuer_address (some resolved) country) ≡ false)
  resolve_issuer_address-located = (
    normalize-keeps resolved branch_id (
        unfold resolve_issuer_address in
        defaulted-Present _ defaults.branch_id b'0' [] refl (merged-Present branch_id)),
    normalize-keeps resolved country (
        unfold resolve_issuer_address in
        defaulted-Present _ defaults.country b'E' (b'G' ∷ []) refl (merged-Present country)),
  )

  -- When the address of the settings is complete, the resolved address is complete, whatever the
  -- overrides of the document: a blank one takes no field away.
  pub resolve_issuer_address_complete :
      is_issuer_address_complete settings ≡ true → is_issuer_address_complete (some resolved) ≡ true
  unfolding is_issuer_address_complete missing_issuer_address_fields
  resolve_issuer_address_complete h =
      ap no_field (without_value-keeps required_issuer_address_fields (no_field-nil _ h))
