-- ===== src/Solana/Recipients/Bounds.antt =====
-- The range of the basis points that recipients.ts accepts, and the rounding of shares.
use splits.Prelude.{ℕ, ◌+◌, ◌*◌, ◌≤◌, ◌≡◌, arith, Option, none, some, Option-cases, inl, inr}
use splits.Outcome.{ok}
use splits.Solana.Types.{JsNumber, natural, negative, not_integer, Recipient}
use splits.Solana.Recipients.{
  share_to_percentage_bps, percentage_bps_to_shares, checked_bps, share_bps, to_percentage_bps,
}

checked_bps_bounds : (n : JsNumber) {b : ℕ} → checked_bps n ≡ ok b → (1 ≤ b) × (b ≤ 9900)
unfolding checked_bps
checked_bps_bounds (natural n) h = ground arith
checked_bps_bounds (negative n) h = ground arith
checked_bps_bounds (not_integer t) h = ground arith

share_bps_bounds : (o : Option JsNumber) {b : ℕ} → share_bps o ≡ ok b → (1 ≤ b) × (b ≤ 9900)
unfolding share_bps
share_bps_bounds none h = ground arith
share_bps_bounds (some (natural n)) h = ground arith
share_bps_bounds (some (negative n)) h = ground arith
share_bps_bounds (some (not_integer t)) h = ground arith

-- Basis points that `toPercentageBps` returns lie between 1 and 9900.
pub to_percentage_bps_bounds :
    (r : Recipient) {b : ℕ} → to_percentage_bps r ≡ ok b → (1 ≤ b) × (b ≤ 9900)
unfolding to_percentage_bps
to_percentage_bps_bounds r h = elim (Option-cases r.percentage_bps) [
  | inl e ↦ share_bps_bounds r.share (rw (e, to_percentage_bps) at h)
  | inr (n, e) ↦ checked_bps_bounds n (rw (e, to_percentage_bps) at h)
]

-- A share that `shareToPercentageBps` accepts is what `percentageBpsToShares` makes of its basis
-- points.
pub percentage_bps_to_shares-share_to_percentage_bps :
    (s : ℕ) {b : ℕ} → share_to_percentage_bps (natural s) ≡ ok b → percentage_bps_to_shares b ≡ s
unfolding share_to_percentage_bps percentage_bps_to_shares
percentage_bps_to_shares-share_to_percentage_bps s h = ground arith

-- The share that `percentageBpsToShares` gives stands for basis points that are at most 49 away
-- from its argument.
pub percentage_bps_to_shares_near :
    (bps : ℕ)
    → (percentage_bps_to_shares bps * 99 ≤ bps + 49)
      × (bps ≤ percentage_bps_to_shares bps * 99 + 49)
unfolding percentage_bps_to_shares
percentage_bps_to_shares_near bps = omega arith
