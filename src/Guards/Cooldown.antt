-- ===== src/Guards/Cooldown.antt =====
-- apps/api/src/submissions/submit-cooldown.ts and apps/api/src/sync/sync-lock.ts: when a submission
-- that ETA called a duplicate blocks the next one, and when a lock has gone stale.
--
-- An instant is its milliseconds since 1970, of which none lies before.
pub mod Releases
use einvoice.Prelude.{
  ℕ, ◌+◌, ◌-◌, ◌*◌, ◌/◌, Bool, true, false, not, ◌&&◌, ◌||◌, Option, none, some, [], ◌∷◌, Text, lit,
  text_eq, ltb, leb, if◌then◌else◌,
}

pub record CooldownState : Type 0 where
  pub until : Option ℕ
  pub payload_hash : Option Text

pub data CooldownDecision : Type 0 where
  no_cooldown expired payload_changed : CooldownDecision
  active : ℕ → ℕ → CooldownDecision

-- `a && b && a !== b`
abbrev pub differ : Option Text → Option Text → Bool
differ (some (c ∷ s)) (some (d ∷ t)) = not (text_eq (c ∷ s) (d ∷ t))
differ _ _ = false

-- The decision by the end of the cooldown and the comparison of the hashes.
abbrev pub decide : Option ℕ → Bool → ℕ → CooldownDecision
decide none changed now = no_cooldown
decide (some until) changed now =
    if leb until now
    then expired
    else if changed
    then payload_changed
    else active ((until - now + 999) / 1000) until

unfoldable pub evaluate_cooldown : CooldownState → Option Text → ℕ → CooldownDecision
evaluate_cooldown state current_payload_hash now =
    decide state.until (differ state.payload_hash current_payload_hash) now

abbrev pub is_blocked : CooldownDecision → Bool
is_blocked (active remaining until) = true
is_blocked _ = false

unfoldable pub is_cooldown_clearable : CooldownState → Option Text → ℕ → Bool
unfolding evaluate_cooldown
is_cooldown_clearable state current_payload_hash now = elim state.until [
  | none ↦ false
  | some until ↦ not (is_blocked (evaluate_cooldown state current_payload_hash now))
]

abbrev pub in_flight_stale_ms : ℕ
in_flight_stale_ms = 5 * 60000

-- `nowMs - since < staleMs`, also for an instant in the future.
unfoldable pub is_in_flight_held : Bool → Option ℕ → ℕ → ℕ → Bool
is_in_flight_held false since now stale = false
is_in_flight_held true none now stale = false
is_in_flight_held true (some since) now stale = ltb now (since + stale)

abbrev pub sync_stale_ms : ℕ
sync_stale_ms = 60 * 60 * 1000

pub record SyncRun : Type 0 where
  pub status : Text
  pub created_at : ℕ
  pub started_at : Option ℕ

abbrev pub anchor : SyncRun → ℕ
anchor run = elim run.started_at [ none ↦ run.created_at | some at ↦ at ]

unfoldable pub is_sync_run_stale : SyncRun → ℕ → ℕ → Bool
is_sync_run_stale run now stale =
    (text_eq run.status (lit "PENDING") || text_eq run.status (lit "RUNNING"))
    && leb (anchor run + stale) now
