-- ===== src/Validation/Tests.antt =====
-- Runs of packages/eta-core/src/local-validator.ts, and the theorems at concrete inputs.
use einvoice.Prelude.{true, none, lit, ◌≡◌, refl, [], ◌∷◌, map, lit, ok, pos, ◌+ℤ◌, arith}
use einvoice.Prelude.Plain.{plain}
use einvoice.Money.{money}
use einvoice.Money.Exact.{exact}
use einvoice.Json.{num, arr, obj, Fields, end, field, get_field, items}
use einvoice.Totals.DocumentSums.{MoneyLine, as_line}
use einvoice.Builder.Sample.{one_time, context, built_document, build_run, money_line}
use einvoice.Builder.Lines.{Sends, tax_object}
use einvoice.Validation.Document.{ValidatorRefs}
use einvoice.Validation.Totals.{check_eta_totals, check_line}
use einvoice.Validation.Recomputed.{checked}
use einvoice.Validation.Accepted.{check_eta_totals-build_document_payload}
use einvoice.Validation.Tolerance.{reported, check_line-reported}

check_eta_totals-build_document_payload_example :
    check_eta_totals (built_document.eta_payload) ≡ ok []
unfolding money
check_eta_totals-build_document_payload_example =
    check_eta_totals-build_document_payload context built_document (money_line ∷ []) (pos 300) refl
      build_run refl refl (omega arith)

-- A declared total of 115.00 where ETA's is 113.00.
abbrev wrong_line : MoneyLine
wrong_line = record money_line { total = pos 11500 }

abbrev wrong_fields : Fields (exact.Double)
wrong_fields = field (lit "netTotal") (num (exact.number (lit "100.00"))) (
    field (lit "total") (num (exact.number (lit "115.00"))) (
      field (lit "itemsDiscount") (num (exact.number (lit "0.00"))) (
        field (lit "taxableItems") (arr (items (map tax_object ((as_line wrong_line).tax_amounts))))
          end)))

wrong_fields-Sends : Sends (as_line wrong_line) wrong_fields
unfolding get_field money
wrong_fields-Sends = record { total = refl; net_total = refl; items_discount = refl; taxes = refl }

check_line-reported_example :
    check_line (checked (pos 0) (pos 0)) 0 (obj wrong_fields)
    ≡ ok (record (checked (pos 0 +ℤ pos 11500) (pos 0 +ℤ pos 10000)) {
      issues = reported 0 wrong_line;
    })
check_line-reported_example =
    check_line-reported (pos 0) (pos 0) 0 wrong_line wrong_fields wrong_fields-Sends (omega arith)
      (omega arith)

abbrev good_refs : ValidatorRefs
good_refs = record {
  branch_ok = true;
  currency_ok = true;
  item_codes_ok = true;
  original_document_ok = none;
  exchange_rate_ok = none;
}
