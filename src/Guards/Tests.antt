-- ===== src/Guards/Tests.antt =====
-- The theorems on the guards at concrete inputs.
use einvoice.Prelude.{
  ℕ, ◌+◌, ◌*◌, ◌<◌, ◌≡◌, refl, ◌↔◌, true, false, none, some, List, [], ◌∷◌, Text, lit, has, all, ok,
  thrown, arith,
}
use einvoice.Guards.Cooldown.{CooldownState, evaluate_cooldown, is_blocked}
use einvoice.Guards.Cooldown.Releases.{evaluate_cooldown-releases}
use einvoice.Guards.Mutability.{
  assert_document_can_mutate, document_eta_sync_readonly, document_not_editable,
  is_document_editable_status,
}
use einvoice.Guards.RolePolicy.{
  assert_known_permission_codes, unique_loop, assert_no_privilege_escalation,
}
use einvoice.Guards.RolePolicy.Permissions.{
  Distinct, assert_known_permission_codes-Distinct, assert_no_privilege_escalation_iff,
}

abbrev waiting : CooldownState
waiting = record { until = some 601500; payload_hash = some (lit "aa") }

evaluate_cooldown-releases_example :
    (end : ℕ) × (waiting.until ≡ some end)
    × (1000 + 601 * 1000 < end + 1000)
    × (is_blocked (evaluate_cooldown waiting none 602000) ≡ false)
unfolding evaluate_cooldown
evaluate_cooldown-releases_example =
    evaluate_cooldown-releases waiting (some (lit "aa")) none 1000 602000 refl (omega arith)

abbrev catalog : List Text
catalog = lit "roles.manage" ∷ lit "audit.view" ∷ lit "backup.view" ∷ []

abbrev asked : List Text
asked = lit "audit.view" ∷ lit "roles.manage" ∷ lit "audit.view" ∷ []

assert_known_permission_codes-Distinct_example :
    Distinct (lit "audit.view" ∷ lit "roles.manage" ∷ [])
    × (all (has catalog) (lit "audit.view" ∷ lit "roles.manage" ∷ []) ≡ true)
    × ((k : Text) → has (lit "audit.view" ∷ lit "roles.manage" ∷ []) k ≡ has asked k)
unfolding assert_known_permission_codes unique_loop
assert_known_permission_codes-Distinct_example =
    assert_known_permission_codes-Distinct catalog asked
      (lit "audit.view" ∷ lit "roles.manage" ∷ []) refl

assert_no_privilege_escalation_iff_example :
    (assert_no_privilege_escalation catalog asked ≡ ok tt) ↔ (all (has catalog) asked ≡ true)
assert_no_privilege_escalation_iff_example = assert_no_privilege_escalation_iff catalog asked

imported_run :
    assert_document_can_mutate (some (lit "ETA_SYNC")) (some (lit "DRAFT"))
    ≡ thrown document_eta_sync_readonly
unfolding assert_document_can_mutate
imported_run = refl

submitted_run :
    assert_document_can_mutate (some (lit "LOCAL")) (some (lit "SUBMITTED"))
    ≡ thrown document_not_editable
unfolding assert_document_can_mutate is_document_editable_status
submitted_run = refl
