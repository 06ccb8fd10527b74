-- ===== src/Received/Direction.antt =====
-- packages/eta-core/src/received-classify.ts: every query is for received documents.
use einvoice.Prelude.{
  ◌≡◌, refl, ◌∙◌, Bool, false, ◌||◌, Bool-cases, inl, inr, Option, lit, text_eq, ok, arith,
}
use einvoice.Money.{Numerics}
use einvoice.Json.{str, Fields, end, field, get_field, set_field}
use einvoice.Json.Objects.{get_field-set_field}
use einvoice.Json.Strings.{js_string}
use einvoice.Received.{
  eta_document_direction_received, is_null, query_loop, entries, received_direction_query,
  assert_received_direction,
}

skipped : (a b : Bool) → (a || b) ≡ false → b ≡ false
skipped a b h = ground arith

module _ ⦃n : Numerics⦄ where
  get_field-query_loop :
      (out fs : Fields n.Double)
      → get_field (query_loop out fs) (lit "direction") ≡ get_field out (lit "direction")
  unfolding query_loop
  get_field-query_loop out end = refl
  get_field-query_loop out (field k v fs) =
      elim (Bool-cases (is_null v || text_eq k (lit "direction"))) [
        | inl e ↦ rw e (get_field-query_loop out fs)
        | inr e ↦ rw e (
            get_field-query_loop (set_field out k (str (js_string v))) fs
            ∙ get_field-set_field out k (lit "direction") (str (js_string v))
            ∙ rw (skipped (is_null v) (text_eq k (lit "direction")) e) refl)
      ]

  -- Whatever a caller adds to a query, a direction included, the query is for received documents: it
  -- passes `assertReceivedDirection`.
  pub assert_received_direction-received_direction_query :
      (extra : Option (Fields n.Double))
      → assert_received_direction (received_direction_query extra) ≡ ok tt
  unfolding assert_received_direction received_direction_query get_field
  assert_received_direction-received_direction_query extra =
      rw
        (get_field-query_loop (field (lit "direction") (str eta_document_direction_received) end)
          (entries extra))
        refl
