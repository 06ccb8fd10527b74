-- ===== src/Receipts/Builder/Tests.antt =====
-- packages/eta-core/src/receipts/receipt-builder.ts on a receipt of one line.
use einvoice.Prelude.Plain.{plain}
use einvoice.Money.Exact.{exact}
use einvoice.Builder.Sample.{one_time}
use einvoice.Receipts.Builder.Sample.{input, built, built_run}
use einvoice.Receipts.Builder.Matching.{IsMatching, build_receipt-IsMatching}

build_receipt-IsMatching_example : IsMatching input built
build_receipt-IsMatching_example = build_receipt-IsMatching input built (built_run.0)
