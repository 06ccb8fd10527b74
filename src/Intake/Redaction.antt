-- ===== src/Intake/Redaction.antt =====
-- packages/eta-core/src/eta-intake-error.ts: what `redactEtaLogJson` leaves of a value.
use einvoice.Prelude.{
  ◌≡◌, refl, sym, ap, subst, ◌↔◌, Bool, true, false, ◌&&◌, Bool-cases, inl, inr, Text, text_eq,
  eq_of_text_eq, and_parts, if◌then◌else◌,
}
use einvoice.Json.{
  object_constructor, Json, null, bool, num, str, arr, obj, Items, nil, cons, Fields, end, field,
}
use einvoice.Intake.{is_secret_key, redacted_text, redact_eta_log_json, redact_items, redact_fields}

-- The text that stands for a secret.
abbrev pub is_redacted : {N : Type 0} → Json N → Bool
is_redacted (str s) = text_eq s redacted_text
is_redacted _ = false

-- At any depth, the value of a key that looks like a secret is the text `[redacted]`.
unfoldable mutual
  pub no_secrets : {N : Type 0} → Json N → Bool
  no_secrets null = true
  no_secrets (bool b) = true
  no_secrets object_constructor = true
  no_secrets (num x) = true
  no_secrets (str s) = true
  no_secrets (arr xs) = no_secret_items xs
  no_secrets (obj fs) = no_secret_fields fs

  pub no_secret_items : {N : Type 0} → Items N → Bool
  no_secret_items nil = true
  no_secret_items (cons x xs) = no_secrets x && no_secret_items xs

  pub no_secret_fields : {N : Type 0} → Fields N → Bool
  no_secret_fields end = true
  no_secret_fields (field k v fs) =
      let nested = no_secrets v in
      (if is_secret_key k then is_redacted v else nested) && no_secret_fields fs

module _ {N : Type 0} where
  mutual
    unfolding no_secrets redact_eta_log_json

    no_secrets-redact : (v : Json N) → no_secrets (redact_eta_log_json v) ≡ true
    no_secrets-redact null = refl
    no_secrets-redact (bool b) = refl
    no_secrets-redact object_constructor = refl
    no_secrets-redact (num x) = refl
    no_secrets-redact (str s) = refl
    no_secrets-redact (arr xs) = no_secret_items-redact xs
    no_secrets-redact (obj fs) = no_secret_fields-redact fs

    no_secret_items-redact : (xs : Items N) → no_secret_items (redact_items xs) ≡ true
    no_secret_items-redact nil = refl
    no_secret_items-redact (cons x xs) = rw (no_secrets-redact x) (no_secret_items-redact xs)

    no_secret_fields-redact : (fs : Fields N) → no_secret_fields (redact_fields fs) ≡ true
    no_secret_fields-redact end = refl
    no_secret_fields-redact (field k v fs) = elim (Bool-cases (is_secret_key k)) [
      | inl e ↦ rw e (no_secret_fields-redact fs)
      | inr e ↦ rw e (rw (no_secrets-redact v) (no_secret_fields-redact fs))
    ]

  -- A value of a field that shows no secret.
  abbrev Shows : Text → Json N → Type 0
  Shows k v = (if is_secret_key k then is_redacted v else no_secrets v) ≡ true

  shown_secret :
      (k : Text) (v : Json N)
      → is_secret_key k ≡ true
      → (if is_secret_key k then is_redacted v else no_secrets v) ≡ is_redacted v
  shown_secret k v e = rw e refl

  shown_other :
      (k : Text) (v : Json N)
      → is_secret_key k ≡ false
      → (if is_secret_key k then is_redacted v else no_secrets v) ≡ no_secrets v
  shown_other k v e = rw e refl

  redacted_eq : (v : Json N) → is_redacted v ≡ true → str redacted_text ≡ v
  redacted_eq null h = cc
  redacted_eq (bool b) h = cc
  redacted_eq object_constructor h = cc
  redacted_eq (num x) h = cc
  redacted_eq (str s) h = ap str (sym (eq_of_text_eq s redacted_text h))
  redacted_eq (arr xs) h = cc
  redacted_eq (obj fs) h = cc

  value_same :
      (k : Text) (v : Json N)
      → (no_secrets v ≡ true → redact_eta_log_json v ≡ v)
      → Shows k v
      → (if is_secret_key k then str redacted_text else redact_eta_log_json v) ≡ v
  value_same k v same h = elim (Bool-cases (is_secret_key k)) [
    | inl e ↦ rw e (redacted_eq v (rw (← shown_secret k v e) h))
    | inr e ↦ rw e (same (rw (← shown_other k v e) h))
  ]

  mutual
    unfolding no_secrets redact_eta_log_json

    redact_same : (v : Json N) → no_secrets v ≡ true → redact_eta_log_json v ≡ v
    redact_same null h = refl
    redact_same (bool b) h = refl
    redact_same object_constructor h = refl
    redact_same (num x) h = refl
    redact_same (str s) h = refl
    redact_same (arr xs) h = ap arr (redact_items_same xs h)
    redact_same (obj fs) h = ap obj (redact_fields_same fs h)

    redact_items_same : (xs : Items N) → no_secret_items xs ≡ true → redact_items xs ≡ xs
    redact_items_same nil h = refl
    redact_items_same (cons x xs) h =
        let (p, q) = and_parts (no_secrets x) (no_secret_items xs) h in
        λ i. cons (redact_same x p i) (redact_items_same xs q i)

    redact_fields_same : (fs : Fields N) → no_secret_fields fs ≡ true → redact_fields fs ≡ fs
    redact_fields_same end h = refl
    redact_fields_same (field k v fs) h =
        let (p, q) =
          and_parts (if is_secret_key k then is_redacted v else no_secrets v) (no_secret_fields fs)
            h in
        λ i. field k (value_same k v (redact_same v) p i) (redact_fields_same fs q i)

  -- What `redactEtaLogJson` returns shows no value under a key that looks like a secret, at any
  -- depth; and it returns a value as it is exactly if that shows none.
  pub no_secrets-redact_eta_log_json :
      (v : Json N)
      → (no_secrets (redact_eta_log_json v) ≡ true)
        × ((redact_eta_log_json v ≡ v) ↔ (no_secrets v ≡ true))
  no_secrets-redact_eta_log_json v = (
    no_secrets-redact v,
    ((λ e. subst (λ w. no_secrets w ≡ true) e (no_secrets-redact v)), redact_same v),
  )
