-- ===== src/Receipts/Validator/Tests.antt =====
-- packages/eta-core/src/receipts/receipt-validator.ts on a receipt that was built.
use einvoice.Prelude.{◌≡◌, some, [], ok}
use einvoice.Prelude.Plain.{plain}
use einvoice.Money.Exact.{exact}
use einvoice.Builder.Sample.{one_time}
use einvoice.Receipts.Builder.Sample.{input, built, built_run}
use einvoice.Receipts.Validator.Recomputed.{recomputed_issues}
use einvoice.Receipts.Validator.Built.{recomputed_issues-build_receipt}

recomputed_issues-build_receipt_example : recomputed_issues built.eta_payload (some input) ≡ ok []
recomputed_issues-build_receipt_example =
    recomputed_issues-build_receipt input built (built_run.0) (built_run.1)
