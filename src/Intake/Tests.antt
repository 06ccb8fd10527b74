-- ===== src/Intake/Tests.antt =====
-- Runs of packages/eta-core/src/eta-intake-error.ts, and the theorem at a concrete value.
use einvoice.Prelude.{◌≡◌, ◌↔◌, refl, true, none, lit, trim}
use einvoice.Prelude.Numeral.{digits}
use einvoice.Money.Exact.{exact}
use einvoice.Json.{Json, str, arr, obj, nil, cons, Fields, end, field, get_field}
use einvoice.Json.Strings.{js_string}
use einvoice.Intake.{
  JsonText, is_secret_key, redact_eta_log_json, error_bits, part, format_detail, format_record,
}
use einvoice.Intake.Redaction.{no_secrets, no_secrets-redact_eta_log_json}

-- A parser that refuses every text.
instance abbrev no_parser : JsonText (exact.Double)
no_parser = record { parse_json = λ s. none; stringify = λ v. lit "{}" }

abbrev logged : Json (exact.Double)
logged = obj (
    field (lit "url") (str (lit "/submit")) (
      field (lit "headers")
        (arr (
          cons
            (obj (
              field (lit "Private-Key") (str (lit "abc"))
                (field (lit "accept") (str (lit "json")) end)))
            nil))
        (field (lit "Access_Token") (obj (field (lit "id") (str (lit "1")) end)) end)))

abbrev shown : Json (exact.Double)
shown = obj (
    field (lit "url") (str (lit "/submit")) (
      field (lit "headers")
        (arr (
          cons
            (obj (
              field (lit "Private-Key") (str (lit "[redacted]"))
                (field (lit "accept") (str (lit "json")) end)))
            nil))
        (field (lit "Access_Token") (str (lit "[redacted]")) end)))

redact_run : redact_eta_log_json logged ≡ shown
unfolding redact_eta_log_json is_secret_key
redact_run = refl

no_secrets-redact_eta_log_json_example :
    (no_secrets (redact_eta_log_json logged) ≡ true)
    × ((redact_eta_log_json logged ≡ logged) ↔ (no_secrets logged ≡ true))
no_secrets-redact_eta_log_json_example = no_secrets-redact_eta_log_json logged

abbrev refusal : Fields (exact.Double)
refusal = field (lit "code") (str (lit "400")) (
    field (lit "message") (str (lit "Validation Error")) (
      field (lit "details")
        (arr (cons (obj (field (lit "message") (str (lit "Bad total")) end)) nil)) end))

format_run : format_record refusal ≡ lit "code=400 — Validation Error — details[0]: Bad total"
unfolding format_record format_detail error_bits part get_field trim js_string digits
format_run = refl
