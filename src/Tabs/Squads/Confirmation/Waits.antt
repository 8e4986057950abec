-- ===== src/Tabs/Squads/Confirmation/Waits.antt =====
-- waitForConfirmation ends with the first answer that decides, and after 60 polls at the latest.
use splits.Prelude.{
  ◌≡◌, refl, ℕ, zero, suc, ◌+◌, ◌<◌, String, true, false, Option, none, some, [], ◌∷◌, ◌++◌, length,
  arith, length-append,
}
use splits.Outcome.{Result, ok, throw, error}
use splits.Tabs.Action.{Store, raise, lift, observed, ◌>>=◌}
use splits.Tabs.Squads.Confirmation.{
  Status, Poll, polled, meets_commitment, confirmation_met, verdict, settle_or, confirm_rounds,
  wait_for_confirmation,
}

abbrev Ended : Type 0
Ended = Result Unit

-- no error, and no level or one that is too low
abbrev pub BelowLevel : String → Option String → Type 0
BelowLevel required none = Unit
BelowLevel required (some level) = meets_commitment level required ≡ false

abbrev pub Undecided : String → Option Status → Type 0
Undecided required none = Unit
Undecided required (some status) =
    (status.err ≡ none) × BelowLevel required status.confirmation_status

-- no error, and a level that is high enough
abbrev pub ReachedLevel : String → Option String → Type 0
ReachedLevel required none = ⊥
ReachedLevel required (some level) = meets_commitment level required ≡ true

abbrev pub Reached : String → Option Status → Type 0
Reached required none = ⊥
Reached required (some status) =
    (status.err ≡ none) × ReachedLevel required status.confirmation_status

confirmation_met-BelowLevel :
    (required : String) (o : Option String)
    → BelowLevel required o
    → confirmation_met o required ≡ false
unfolding confirmation_met
confirmation_met-BelowLevel required none h = refl
confirmation_met-BelowLevel required (some level) h = h

confirmation_met-ReachedLevel :
    (required : String) (o : Option String)
    → ReachedLevel required o
    → confirmation_met o required ≡ true
unfolding confirmation_met
confirmation_met-ReachedLevel required none h = elim h [ ]
confirmation_met-ReachedLevel required (some level) h = h

verdict-Undecided :
    (required : String) (o : Option Status) → Undecided required o → verdict required o ≡ none
unfolding verdict
verdict-Undecided required none h = refl
verdict-Undecided required (some status) (e, l) =
    rw (e, confirmation_met-BelowLevel required status.confirmation_status l) refl

verdict-Reached :
    (required : String) (o : Option Status) → Reached required o → verdict required o ≡ some (ok tt)
unfolding verdict
verdict-Reached required none h = elim h [ ]
verdict-Reached required (some status) (e, l) =
    rw (e, confirmation_met-ReachedLevel required status.confirmation_status l) refl

module _ {W : Type 0} (get_signature_status : String → W → Result (Option Status) × W)
    (signature required : String) where
  -- the first `n` answers from this world on decide nothing
  abbrev pub FirstUndecided : ℕ → W → Type 0
  FirstUndecided zero w = Unit
  FirstUndecided (suc n) w =
      (status : Option Status) × ((get_signature_status signature w).0 ≡ ok status)
      × Undecided required status
      × FirstUndecided n (get_signature_status signature w).1

  -- the answer after `n` others confirms
  abbrev pub Confirms : ℕ → W → Type 0
  Confirms zero w =
      (status : Option Status) × ((get_signature_status signature w).0 ≡ ok status)
      × Reached required status
  Confirms (suc n) w = Confirms n (get_signature_status signature w).1

  -- the state after one poll
  abbrev next : Store W Poll → Store W Poll
  next s = record {
    world = (get_signature_status signature s.world).1;
    trace = s.trace ++ polled (get_signature_status signature s.world).0 ∷ [];
  }

  confirm_rounds-next :
      (rounds : ℕ) (s : Store W Poll) (status : Option Status)
      → (get_signature_status signature s.world).0 ≡ ok status
      → Undecided required status
      → confirm_rounds get_signature_status signature required (suc rounds) s
        ≡ confirm_rounds get_signature_status signature required rounds (next s)
  unfolding confirm_rounds settle_or observed ◌>>=◌
  confirm_rounds-next rounds s status e h = rw (e, verdict-Undecided required status h) refl

  confirm_rounds-ends :
      (rounds : ℕ) (s : Store W Poll) (status : Option Status)
      → (get_signature_status signature s.world).0 ≡ ok status
      → Reached required status
      → confirm_rounds get_signature_status signature required (suc rounds) s ≡ (ok tt, next s)
  unfolding confirm_rounds settle_or observed lift ◌>>=◌
  confirm_rounds-ends rounds s status e h = rw (e, verdict-Reached required status h) refl

  -- what the loop returns, and how many polls it adds
  abbrev Outcome : Ended → ℕ → ℕ → Store W Poll → Type 0
  Outcome r polls rounds s =
      let (r', s') = confirm_rounds get_signature_status signature required rounds s in
      (r' ≡ r) × (length s'.trace ≡ length s.trace + polls)

  Outcome-next :
      (r : Ended) (polls rounds : ℕ) (s : Store W Poll) (status : Option Status)
      → (get_signature_status signature s.world).0 ≡ ok status
      → Undecided required status
      → Outcome r polls rounds (next s)
      → Outcome r (polls + 1) (suc rounds) s
  Outcome-next r polls rounds s status e h (same, n) =
      rw (confirm_rounds-next rounds s status e h) (
        same,
        omega (
          arith,
          n,
          length-append s.trace (polled (get_signature_status signature s.world).0 ∷ []),
        ),
      )

  rounds-confirm :
      (n rounds : ℕ) (s : Store W Poll)
      → n < rounds
      → FirstUndecided n s.world
      → Confirms n s.world
      → Outcome (ok tt) (n + 1) rounds s
  rounds-confirm n zero s low u c = absurd (omega (arith, low))
  rounds-confirm zero (suc rounds) s low u (status, e, h) =
      rw (confirm_rounds-ends rounds s status e h) (
        refl,
        omega
            (arith, length-append s.trace (polled (get_signature_status signature s.world).0 ∷ [])),
      )
  rounds-confirm (suc n) (suc rounds) s low (status, e, h, u) c =
      let k : n + 1 ≡ suc n = omega arith in
      rw (← k) (
        Outcome-next (ok tt) (n + 1) rounds s status e h
          (rounds-confirm n rounds (next s) (omega (arith, low)) u c))

  rounds-time_out :
      (rounds : ℕ) (s : Store W Poll)
      → FirstUndecided rounds s.world
      → Outcome (throw (error "Transaction confirmation timeout")) rounds rounds s
  unfolding confirm_rounds raise
  rounds-time_out zero s u = (refl, omega arith)
  rounds-time_out (suc rounds) s (status, e, h, u) =
      let k : rounds + 1 ≡ suc rounds = omega arith in
      rw (← k) (Outcome-next _ rounds rounds s status e h (rounds-time_out rounds (next s) u))

-- Where fewer than 60 answers of the node come that decide nothing, because they have no error and
-- no level that meets the commitment, and the next has no error and a level that meets it,
-- `waitForConfirmation` returns after polling exactly that many times.
pub wait_for_confirmation-Confirms :
    {W : Type 0} (get_signature_status : String → W → Result (Option Status) × W)
    (signature required : String) (s : Store W Poll) (n : ℕ)
    → n < 60
    → FirstUndecided get_signature_status signature required n s.world
    → Confirms get_signature_status signature required n s.world
    → let (r, s') = wait_for_confirmation get_signature_status signature required s in
      (r ≡ ok tt) × (length s'.trace ≡ length s.trace + (n + 1))
unfolding wait_for_confirmation
wait_for_confirmation-Confirms get_signature_status signature required s n low u c =
    rounds-confirm get_signature_status signature required n 60 s low u c

-- Where the first 60 answers of the node have no error and no level that meets the commitment,
-- `waitForConfirmation` ends after exactly 60 polls with the error of a timeout.
pub wait_for_confirmation-times_out :
    {W : Type 0} (get_signature_status : String → W → Result (Option Status) × W)
    (signature required : String) (s : Store W Poll)
    → FirstUndecided get_signature_status signature required 60 s.world
    → let (r, s') = wait_for_confirmation get_signature_status signature required s in
      (r ≡ throw (error "Transaction confirmation timeout"))
      × (length s'.trace ≡ length s.trace + 60)
unfolding wait_for_confirmation
wait_for_confirmation-times_out get_signature_status signature required s u =
    rounds-time_out get_signature_status signature required 60 s u
