-- ===== src/Tabs/Squads/Confirmation.antt =====
-- meetsCommitment and waitForConfirmation of apps/tabs/src/react-app/lib/squads.ts. The pauses
-- between the polls are left out.
pub mod Waits
use splits.Prelude.{
  ℕ, zero, suc, String, Bool, true, false, Option, none, some, List, [], ◌∷◌, leb, ◌===◌,
  if◌then◌else◌,
}
use splits.Prelude.Text.{◌<>◌}
use splits.Outcome.{Result, ok, throw, Thrown, error}
use splits.Tabs.Action.{Action, Store, pure, raise, lift, observed, ◌>>=◌}

-- a status of `getSignatureStatuses`; `err` as the text of its JSON
pub record Status : Type 0 where
  pub err : Option String
  pub confirmation_status : Option String

-- a poll and its answer
pub data Poll : Type 0 where
  polled : Result (Option Status) → Poll

abbrev max_confirmation_attempts : ℕ
max_confirmation_attempts = 60

-- `COMMITMENT_LEVELS`
unfoldable pub commitment_level : String → Option ℕ
commitment_level level =
    if level === "processed"
    then some 0
    else if level === "confirmed"
    then some 1
    else if level === "finalized"
    then some 2
    else none

unfoldable pub level_or_confirmed : Option ℕ → ℕ
level_or_confirmed none = 1
level_or_confirmed (some n) = n

-- An unknown actual level is -1, below every required one.
unfoldable pub meets_commitment : String → String → Bool
unfolding commitment_level level_or_confirmed
meets_commitment actual required = elim (commitment_level actual) [
  | none ↦ false
  | some level ↦ leb (level_or_confirmed (commitment_level required)) level
]

-- what a poll tells: nothing yet, or the end
unfoldable pub confirmation_met : Option String → String → Bool
unfolding meets_commitment
confirmation_met none required = false
confirmation_met (some level) required = meets_commitment level required

abbrev pub Verdict : Type 0
Verdict = Option (Result Unit)

unfoldable pub verdict : String → Option Status → Verdict
unfolding confirmation_met ◌<>◌
verdict required none = none
verdict required (some status) = elim status.err [
  | some err ↦ some (throw (error ("Transaction failed: " <> err)))
  | none ↦ if confirmation_met status.confirmation_status required then some (ok tt) else none
]

-- the answer ends the loop, or another round follows
unfoldable pub settle_or : {W : Type 0} → Verdict → Action W Poll Unit → Action W Poll Unit
settle_or none rest = rest
settle_or (some r) rest = lift r

module _ {W : Type 0} (get_signature_status : String → W → Result (Option Status) × W)
    (signature commitment : String) where
  -- the `for` loop, with the rounds that are left
  unfoldable pub confirm_rounds : ℕ → Action W Poll Unit
  unfolding verdict settle_or
  confirm_rounds zero = raise (error "Transaction confirmation timeout")
  confirm_rounds (suc rounds) = do
    status ← observed (get_signature_status signature) polled
    settle_or (verdict commitment status) (confirm_rounds rounds)

  unfoldable pub wait_for_confirmation : Action W Poll Unit
  unfolding confirm_rounds
  wait_for_confirmation = confirm_rounds max_confirmation_attempts
