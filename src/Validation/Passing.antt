-- ===== src/Validation/Passing.antt =====
-- packages/eta-core/src/local-validator.ts against packages/eta-core/src/builders/document.ts: the
-- checks of the fields, on the payloads that are built.
use einvoice.Prelude.{
  ℕ, suc, ◌≡◌, refl, ◌∙◌, ap, Bool, true, false, Bool-cases, Option, none, some, List, [], ◌∷◌,
  ◌++◌, map, Text, lit, text_eq_self, Unicode, All, inl, inr, arith, trim, to_upper,
}
use einvoice.Money.{Numerics}
use einvoice.Totals.Line.{LineInput, LineComputed}
use einvoice.Json.{Json, str, arr, obj, Items, Fields, get_field, has_key, items}
use einvoice.Json.Strings.{js_string}
use einvoice.Receiver.{
  clean_string, starts_with, EtaReceiverType, foreign, business, person, type_text,
  as_eta_receiver_type,
}
use einvoice.Receiver.Types.{IsTyped}
use einvoice.Formats.{Dates, is_valid_eta_date_time_issued}
use einvoice.Builder.{DocumentKind, kind_name, kind_to_eta_type}
use einvoice.Builder.Document.{BuildContext}
use einvoice.Builder.Head.{IsHead}
use einvoice.Validation.{
  ValidationIssue, unless, has_path, has_parts, split_path, assert_json_number, is_json_number,
}
use einvoice.Validation.Document.{
  Validation, ValidatorRefs, decimal_doc_paths, line_paths, default_required_paths, required_issues,
  version_issues, date_issues, number_issues, tax_total_issues, unit_value_issues,
  invoice_line_issues, payload_issues, receiver_issues, allowed_type,
}
use einvoice.Validation.Numbers.{IsNumber, HasNumbers}
use einvoice.Validation.PayloadNumbers.{IsTaxTotal, HasPayload}

unless-true : (test : Bool) (issue : ValidationIssue) → test ≡ true → unless test issue ≡ []
unless-true test issue e = rw e refl

module _ ⦃n : Numerics⦄ where
  assert_json_number-nil :
      (path : Text) (o : Option (Json n.Double))
      → is_json_number o ≡ true
      → assert_json_number path o ≡ []
  unfolding assert_json_number
  assert_json_number-nil path o e = unless-true (is_json_number o) _ e

  number_issues-nil :
      (fs : Fields n.Double) (before : Text) (ps : List Text)
      → All (IsNumber fs) ps
      → number_issues fs before ps ≡ []
  unfolding number_issues
  number_issues-nil fs before [] h = refl
  number_issues-nil fs before (p ∷ ps) (e, h) = elim (Bool-cases (has_key fs p)) [
    | inl k ↦ rw k (
        rw (assert_json_number-nil (before ++ p) (get_field fs p) e)
          (number_issues-nil fs before ps h))
    | inr k ↦ rw k (number_issues-nil fs before ps h)
  ]

  tax_total_issues-nil :
      (i : ℕ) (vs : List (Json n.Double)) → All IsTaxTotal vs → tax_total_issues i (items vs) ≡ []
  unfolding tax_total_issues
  tax_total_issues-nil i [] h = refl
  tax_total_issues-nil i (v ∷ vs) ((fs, e, p), h) = rw e (
      rw (assert_json_number-nil _ (get_field fs (lit "amount")) p)
        (tax_total_issues-nil (suc i) vs h))

  unit_value_issues-nil :
      (i : ℕ) (fs : Fields n.Double)
      → HasNumbers fs
      → unit_value_issues i (get_field fs (lit "unitValue")) ≡ []
  unit_value_issues-nil i fs h =
      rw h.unit_field (assert_json_number-nil _ (get_field h.unit (lit "amountEGP")) h.amount)

  invoice_line_issues-nil :
      (i : ℕ) (bs : List (LineComputed × Fields n.Double))
      → All (λ b. HasNumbers (b.1)) bs
      → invoice_line_issues i (items (map (λ b. obj (b.1)) bs)) ≡ []
  unfolding invoice_line_issues
  invoice_line_issues-nil i [] h = refl
  invoice_line_issues-nil i ((c, fs) ∷ bs) (p, h) =
      rw (number_issues-nil fs _ line_paths p.numbers)
        (rw (unit_value_issues-nil i fs p) (invoice_line_issues-nil (suc i) bs h))

  required_issues-nil :
      (fs : Fields n.Double) (issuer receiver : Fields n.Double) (lines : Items n.Double) (c : ℕ)
      (s : Text)
      → get_field fs (lit "issuer") ≡ some (obj issuer)
      → get_field fs (lit "receiver") ≡ some (obj receiver)
      → get_field fs (lit "invoiceLines") ≡ some (arr lines)
      → get_field fs (lit "internalID") ≡ some (str (c ∷ s))
      → required_issues fs default_required_paths ≡ []
  unfolding required_issues has_path has_parts split_path
  required_issues-nil fs issuer receiver lines c s a b d e = rw a (rw b (rw d (rw e refl)))

  version_issues-nil :
      (fs : Fields n.Double) (version : Text)
      → get_field fs (lit "documentTypeVersion") ≡ some (str version)
      → version_issues fs version ≡ []
  unfolding version_issues
  version_issues-nil fs version e = rw e (unless-true _ _ (ground (arith, text_eq_self version)))

  date_issues-nil :
      (fs : Fields n.Double) (date : Text)
      → get_field fs (lit "dateTimeIssued") ≡ some (str date)
      → is_valid_eta_date_time_issued date ≡ true
      → date_issues fs ≡ []
  unfolding date_issues
  date_issues-nil fs date e valid = rw e (rw valid refl)

-- The validation of a document under the version that it is built for, with the default paths.
abbrev pub validation :
    ⦃n : Numerics⦄
    → BuildContext n.Double
    → Fields n.Double
    → ValidatorRefs
    → Option (List LineInput)
    → Validation n.Double
validation ⦃n⦄ ctx document refs lines = record {
  kind = ctx.kind;
  document = document;
  type_version_schema = record {
    document_type_version = ctx.document_type_version;
    required_paths = none;
  };
  refs = refs;
  lines = lines;
}

module _ ⦃u : Unicode⦄ ⦃n : Numerics⦄ ⦃d : Dates⦄ where
  pub payload_issues-nil :
      (ctx : BuildContext n.Double) (document : Fields n.Double) (refs : ValidatorRefs)
      (lines : Option (List LineInput)) (c : ℕ) (s : Text)
      → IsHead ctx document
      → HasPayload document
      → ctx.internal_id ≡ c ∷ s
      → (date : Text) → get_field document (lit "dateTimeIssued") ≡ some (str date)
      → is_valid_eta_date_time_issued date ≡ true
      → payload_issues (validation ctx document refs lines) ≡ []
  unfolding payload_issues
  payload_issues-nil ctx document refs lines c s head payload id date dated valid =
      let t = payload.totals in
      rw (head.document_type) (
        rw (text_eq_self (kind_to_eta_type ctx.kind)) (
          rw (version_issues-nil document ctx.document_type_version head.version) (
            rw
              (required_issues-nil document ctx.issuer _
                (items (map (λ b. obj (b.1)) payload.built)) c s head.issuer head.receiver_field
                t.lines_field (head.internal_id ∙ ap (λ x. some (str x)) id))
              (rw (date_issues-nil document date dated valid) (
                rw (number_issues-nil document [] decimal_doc_paths t.decimals) (
                  rw (t.taxes_field) (
                    rw (tax_total_issues-nil 0 t.taxes t.each) (
                      rw (t.lines_field)
                        (invoice_line_issues-nil 0 payload.built payload.lines)))))))))

module _ ⦃u : Unicode⦄ ⦃n : Numerics⦄ where
  type_text-read :
      (t : EtaReceiverType)
      → as_eta_receiver_type (to_upper (clean_string (some (str (type_text t))))) ≡ some t
  unfolding to_upper clean_string trim js_string
  type_text-read business = refl
  type_text-read person = refl
  type_text-read foreign = refl

  allowed_type-IsTyped :
      (exporting : Bool) (t : EtaReceiverType)
      → (exporting ≡ true → t ≡ foreign)
      → allowed_type exporting (some t) ≡ true
  allowed_type-IsTyped false t h = refl
  allowed_type-IsTyped true t h = rw (h refl) refl

  pub receiver_issues-nil :
      (kind : DocumentKind) (fs : Fields n.Double)
      → IsTyped (starts_with (lit "EXPORT") (kind_name kind)) fs
      → receiver_issues kind (some fs) ≡ []
  unfolding receiver_issues
  receiver_issues-nil kind fs h = rw h.type_field (
      rw (type_text-read h.type) (
        unless-true _ _ (
          ground (
            arith,
            allowed_type-IsTyped (starts_with (lit "EXPORT") (kind_name kind)) h.type h.exported,
          ))))
