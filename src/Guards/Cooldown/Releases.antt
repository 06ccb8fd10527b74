-- ===== src/Guards/Cooldown/Releases.antt =====
-- When the cooldown of apps/api/src/submissions/submit-cooldown.ts lets a submission through.
use einvoice.Prelude.{
  ℕ, ◌+◌, ◌-◌, ◌*◌, ◌/◌, ◌≤◌, ◌<◌, ◌≡◌, refl, sym, ◌∙◌, inl, inr, Bool, true, false, Option, none,
  some, Text, leb, Bool-cases, le→leb, leb→le, arith,
}
use einvoice.Guards.Cooldown.{
  CooldownState, CooldownDecision, active, differ, decide, evaluate_cooldown, is_blocked,
}

-- The numbers of an active decision.
abbrev pub remaining_seconds : CooldownDecision → ℕ
remaining_seconds (active r u) = r
remaining_seconds _ = 0

seconds-bounds :
    (until now : ℕ)
    → leb until now ≡ false
    → (until ≤ now + (until - now + 999) / 1000 * 1000)
      × (now + (until - now + 999) / 1000 * 1000 < until + 1000)
seconds-bounds until now h = (ground arith, ground arith)

decide-over :
    (end : ℕ) (changed : Bool) (later : ℕ)
    → end ≤ later
    → is_blocked (decide (some end) changed later) ≡ false
decide-over end changed later h = rw (le→leb end later h) refl

decide-changed : (u : Option ℕ) (now : ℕ) → is_blocked (decide u true now) ≡ false
decide-changed none now = refl
decide-changed (some end) now = ground arith

decide-window :
    (u : Option ℕ) (changed : Bool) (now : ℕ)
    → is_blocked (decide u changed now) ≡ true
    → (end : ℕ) × (u ≡ some end)
      × (end ≤ now + remaining_seconds (decide u changed now) * 1000)
      × (now + remaining_seconds (decide u changed now) * 1000 < end + 1000)
decide-window none changed now h = cc
decide-window (some end) true now h = let e = sym (decide-changed (some end) now) ∙ h in cc
decide-window (some end) false now h = elim (Bool-cases (leb end now)) [
  | inl e ↦ let f = sym (decide-over end false now (leb→le end now e)) ∙ h in cc
  | inr e ↦ let (low, high) = seconds-bounds end now e in (end, refl, rw e low, rw e high)
]

-- A cooldown that blocks announces the seconds that are left, rounded up to less than a second more:
-- from the announced instant on, it blocks no payload.
pub evaluate_cooldown-releases :
    (state : CooldownState) (hash later_hash : Option Text) (now later : ℕ)
    → is_blocked (evaluate_cooldown state hash now) ≡ true
    → now + remaining_seconds (evaluate_cooldown state hash now) * 1000 ≤ later
    → (end : ℕ) × (state.until ≡ some end)
      × (now + remaining_seconds (evaluate_cooldown state hash now) * 1000 < end + 1000)
      × (is_blocked (evaluate_cooldown state later_hash later) ≡ false)
unfolding evaluate_cooldown
evaluate_cooldown-releases state hash later_hash now later h l =
    let (end, e, low, high) = decide-window state.until (differ state.payload_hash hash) now h in
    (
      end,
      e,
      high,
      rw e (decide-over end (differ state.payload_hash later_hash) later (omega arith)),
    )

-- A cooldown blocks no payload whose hash differs from that of the payload that ETA refused.
evaluate_cooldown-payload_changed :
    (state : CooldownState) (hash : Option Text) (now : ℕ)
    → differ state.payload_hash hash ≡ true
    → is_blocked (evaluate_cooldown state hash now) ≡ false
unfolding evaluate_cooldown
evaluate_cooldown-payload_changed state hash now d = rw d (decide-changed state.until now)
