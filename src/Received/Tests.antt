-- ===== src/Received/Tests.antt =====
-- Runs of packages/eta-core/src/received-classify.ts, and the theorem at a concrete query.
use einvoice.Prelude.{◌≡◌, refl, some, lit, ok, trim, to_upper}
use einvoice.Prelude.Plain.{plain}
use einvoice.Money.Exact.{exact}
use einvoice.Json.{str, Fields, end, field}
use einvoice.Received.{
  purchase_return, classify_received_document, received_direction_query, assert_received_direction,
}
use einvoice.Received.Direction.{assert_received_direction-received_direction_query}

classify_run : classify_received_document (some (lit " c ")) ≡ purchase_return
unfolding classify_received_document trim to_upper
classify_run = refl

abbrev wrong_direction : Fields (exact.Double)
wrong_direction =
    field (lit "direction") (str (lit "Issued")) (field (lit "page") (str (lit "2")) end)

assert_received_direction-received_direction_query_example :
    assert_received_direction (received_direction_query (some wrong_direction)) ≡ ok tt
assert_received_direction-received_direction_query_example =
    assert_received_direction-received_direction_query (some wrong_direction)
