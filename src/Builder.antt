-- ===== src/Builder.antt =====
-- packages/eta-core/src/builders/document.ts: the payload of a document, with its lines and totals.
pub mod Document
pub mod Lines
pub mod Payload
pub mod Kept
pub mod Head
pub mod Sample
mod Tests
use einvoice.Prelude.{
  Bool, true, false, Option, none, some, List, [], ◌∷◌, map, Text, lit, text_eq, Unicode, ok,
  thrown, ◌>>=◌, traverse, if◌then◌else◌, Result,
}
use einvoice.Money.{Numerics, Calc, zero_money}
use einvoice.Totals.{LineTaxComputed, given, or_else}
use einvoice.Totals.Line.{LineInput, LineComputed, calculate_line}
use einvoice.Totals.Document.{DocumentTotals, calculate_document_totals}
use einvoice.Json.{
  Json, null, bool, num, str, arr, obj, Items, Fields, end, field, get_field, set_field, items,
}
use einvoice.Receiver.{set_text, set_object, unless_empty}
use einvoice.Formats.{
  Dates, BuildError, calculation, Build, format_eta_date_time_issued, to_eta_decimal_number,
}

pub data DocumentKind : Type 0 where
  invoice credit_note debit_note export_invoice export_credit_note export_debit_note : DocumentKind

abbrev pub kind_name : DocumentKind → Text
kind_name invoice = lit "INVOICE"
kind_name credit_note = lit "CREDIT_NOTE"
kind_name debit_note = lit "DEBIT_NOTE"
kind_name export_invoice = lit "EXPORT_INVOICE"
kind_name export_credit_note = lit "EXPORT_CREDIT_NOTE"
kind_name export_debit_note = lit "EXPORT_DEBIT_NOTE"

-- `KIND_TO_ETA_TYPE[kind]`
abbrev pub kind_to_eta_type : DocumentKind → Text
kind_to_eta_type invoice = lit "I"
kind_to_eta_type credit_note = lit "C"
kind_to_eta_type debit_note = lit "D"
kind_to_eta_type export_invoice = lit "EI"
kind_to_eta_type export_credit_note = lit "EC"
kind_to_eta_type export_debit_note = lit "ED"

abbrev pub from_calc : {A : Type 0} → Calc A → Build A
from_calc (ok a) = ok a
from_calc (thrown e) = thrown (calculation e)

-- `value || fallback`
abbrev pub or_default_text : Option Text → Text → Text
or_default_text none d = d
or_default_text (some []) d = d
or_default_text (some (c ∷ s)) d = c ∷ s

-- `if (value) out[key] = value`
abbrev pub set_given : {N : Type 0} → Fields N → Text → Option Text → Fields N
set_given out key none = out
set_given out key (some s) = set_text out key s

module _ ⦃n : Numerics⦄ where
  -- `if (value != null && value !== '') out[key] = n(value)`, of which `if (value) …` does the same.
  unfoldable pub set_number : Fields n.Double → Text → Option Text → Build (Fields n.Double)
  set_number out key value = elim (given value) [
    | none ↦ ok out
    | some t ↦ to_eta_decimal_number t >>= λ x. ok (set_field out key (num x))
  ]

  unfoldable pub foreign_amounts : Fields n.Double → LineInput → Build (Fields n.Double)
  unfolding set_number
  foreign_amounts base line = do
    out ← set_number base (lit "amountSold") line.amount_sold
    set_number out (lit "currencyExchangeRate") line.currency_exchange_rate

  unfoldable pub unit_value : LineInput → Build (Fields n.Double)
  unit_value line = do
    amount ← to_eta_decimal_number (or_else line.amount_egp line.unit_price)
    let sold = or_default_text line.currency_sold (lit "EGP")
    let base = field (lit "currencySold") (str sold) (field (lit "amountEGP") (num amount) end)
    if text_eq sold (lit "EGP") then ok base else foreign_amounts base line

  unfoldable pub taxable_item : LineTaxComputed → Build (Json n.Double)
  taxable_item t = do
    amount ← to_eta_decimal_number t.amount
    rate ← to_eta_decimal_number t.rate
    ok (
        obj (
          field (lit "taxType") (str t.tax_type) (
            field (lit "amount") (num amount)
              (field (lit "subType") (str t.sub_type) (field (lit "rate") (num rate) end)))))

  abbrev pub as_discount : n.Double → n.Double → Json n.Double
  as_discount rate amount =
      obj (field (lit "rate") (num rate) (field (lit "amount") (num amount) end))

  -- The object of a line, up to its taxes.
  unfoldable pub line_core : LineInput → LineComputed → Build (Fields n.Double)
  line_core line c = do
    unit ← unit_value line
    quantity ← to_eta_decimal_number line.quantity
    sales_total ← to_eta_decimal_number c.sales_total
    total ← to_eta_decimal_number c.total
    value_difference ← to_eta_decimal_number c.value_difference
    total_taxable_fees ← to_eta_decimal_number c.total_taxable_fees
    net_total ← to_eta_decimal_number c.net_total
    items_discount ← to_eta_decimal_number c.items_discount
    rate ← to_eta_decimal_number (or_else line.discount_rate (lit "0"))
    amount ← to_eta_decimal_number c.discount
    taxes ← traverse taxable_item c.tax_amounts
    ok (
        field (lit "description") (str line.description) (
          field (lit "itemType") (str line.item_type) (
            field (lit "itemCode") (str line.item_code) (
              field (lit "unitType") (str line.unit_type) (
                field (lit "quantity") (num quantity) (
                  field (lit "unitValue") (obj unit) (
                    field (lit "salesTotal") (num sales_total) (
                      field (lit "total") (num total) (
                        field (lit "valueDifference") (num value_difference) (
                          field (lit "totalTaxableFees") (num total_taxable_fees) (
                            field (lit "netTotal") (num net_total) (
                              field (lit "itemsDiscount") (num items_discount) (
                                field (lit "discount") (as_discount rate amount)
                                  (field (lit "taxableItems") (arr (items taxes)) end))))))))))))))

module _ ⦃u : Unicode⦄ ⦃n : Numerics⦄ where
  -- One round of `buildLines`: what is computed of a line, and its object.
  unfoldable pub build_line : LineInput → Build (LineComputed × Fields n.Double)
  build_line line = do
    c ← from_calc (calculate_line line)
    core ← line_core line c
    let coded = set_given core (lit "internalCode") line.internal_code
    let weighed = set_given coded (lit "weightUnitType") line.weight_unit_type
    set_number weighed (lit "weightQuantity") line.weight_quantity >>= λ out. ok (c, out)

  unfoldable pub build_lines : List LineInput → Build (List (LineComputed × Fields n.Double))
  build_lines lines = traverse build_line lines
