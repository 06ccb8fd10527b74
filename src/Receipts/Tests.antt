-- ===== src/Receipts/Tests.antt =====
-- Runs of packages/eta-core/src/receipts, and the theorems at concrete inputs.
use einvoice.Prelude.{
  ◌≡◌, refl, none, some, List, [], ◌∷◌, ◌++◌, map, Text, lit, ok, arith, pos, ◌-ℤ◌,
}
use einvoice.Prelude.Plain.{plain}
use einvoice.Money.{money, zero_money}
use einvoice.Money.Exact.{exact}
use einvoice.Tax.{additive}
use einvoice.Json.{Fields, str, obj, end, field}
use einvoice.Totals.{or_else}
use einvoice.Totals.Maps.{map_get}
use einvoice.Totals.DocumentSums.{MoneyLine, sum_of}
use einvoice.Totals.DocumentSums.TaxMap.{tax_sum}
use einvoice.Receipts.Sha256.{utf8}
use einvoice.Receipts.Uuid.{stamp_receipt_uuid}
use einvoice.Receipts.Uuid.Stamping.{IsStamped, compute-stamp_receipt_uuid}
use einvoice.Receipts.Batch.{SplitOptions, split_receipt_batch}
use einvoice.Receipts.Batch.Splitting.{IsSplit, split_receipt_batch-IsSplit}
use einvoice.Receipts.Totals.{calculate_receipt_document_totals}
use einvoice.Receipts.Totals.Sums.{
  as_extra, as_receipt_line, sum_cents, calculate_receipt_document_totals-money,
}

abbrev receipt : Fields (exact.Double)
receipt =
    field (lit "header")
      (obj (field (lit "receiptNumber") (str (lit "1")) (field (lit "uuid") (str (lit "old")) end)))
      (field (lit "currency") (str (lit "EGP")) end)

compute-stamp_receipt_uuid_example :
    IsStamped receipt (stamp_receipt_uuid receipt).receipt (stamp_receipt_uuid receipt).uuid
compute-stamp_receipt_uuid_example = compute-stamp_receipt_uuid receipt

-- Rows are texts, and a chunk is serialized to their concatenation.
abbrev concatenated : List Text → Text
concatenated [] = []
concatenated (t ∷ ts) = t ++ concatenated ts

abbrev small : SplitOptions Text
small = record { max_count = some 2; max_bytes = some 4; serialize = none }

abbrev rows : List Text
rows = lit "a" ∷ lit "bb" ∷ lit "ccc" ∷ lit "toolong" ∷ lit "e" ∷ lit "f" ∷ lit "g" ∷ []

split_run :
    split_receipt_batch concatenated small rows
    ≡ (lit "a" ∷ lit "bb" ∷ [])
      ∷ (lit "ccc" ∷ [])
      ∷ (lit "toolong" ∷ [])
      ∷ (lit "e" ∷ lit "f" ∷ [])
      ∷ (lit "g" ∷ [])
      ∷ []
unfolding split_receipt_batch utf8
split_run = refl

split_receipt_batch-IsSplit_example :
    IsSplit concatenated small rows (split_receipt_batch concatenated small rows)
split_receipt_batch-IsSplit_example = split_receipt_batch-IsSplit concatenated small rows

abbrev money_lines : List MoneyLine
money_lines =
    record {
      base = record {
        sales_total = [];
        discount = [];
        net_total = [];
        tax_amounts = [];
        additive_tax_total = [];
        deductible_tax_total = [];
        total = [];
        items_discount = [];
        value_difference = [];
        total_taxable_fees = [];
      };
      sales = pos 10000;
      discount = pos 500;
      items = pos 0;
      net = pos 9500;
      total = pos 10830;
      taxes =
          (
            record {
              tax_type = lit "T1";
              sub_type = lit "V009";
              rate = lit "14";
              amount = [];
              direction = additive;
            },
            pos 1330,
          )
          ∷ [];
    }
    ∷ []

calculate_receipt_document_totals-money_example :
    (m : List (Text × Text)) × (calculate_receipt_document_totals
        (map as_receipt_line money_lines)
        (map as_extra (pos 30 ∷ pos 7 ∷ []))
      ≡ ok (record {
        total_sales = money (sum_of (λ l. l.sales) money_lines);
        total_commercial_discount = money (sum_of (λ l. l.discount) money_lines);
        total_items_discount = money (sum_of (λ l. l.items) money_lines);
        extra_receipt_discount = money (sum_cents (pos 30 ∷ pos 7 ∷ []));
        net_amount = money (sum_of (λ l. l.net) money_lines);
        fees_amount = zero_money;
        adjustment = zero_money;
        total_amount = money (sum_of (λ l. l.total) money_lines -ℤ sum_cents (pos 30 ∷ pos 7 ∷ []));
        tax_totals = m;
      }))
    × ((k : Text)
        → or_else (map_get m k) zero_money ≡ money (sum_of (λ l. tax_sum k l.taxes) money_lines))
calculate_receipt_document_totals-money_example =
    calculate_receipt_document_totals-money money_lines (pos 30 ∷ pos 7 ∷ []) (omega arith)
