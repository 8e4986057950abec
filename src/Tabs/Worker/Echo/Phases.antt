-- ===== src/Tabs/Worker/Echo/Phases.antt =====
-- The order of what /api/echo/resource sends and asks, as a state machine that reads the trace.
use splits.Prelude.{
  ◌≡◌, refl, ap, ◌∙◌, String, Bool, false, Option, List, [], ◌∷◌, ◌++◌, ◌===◌, if◌then◌else◌,
}
use text.Mathlib.TextPositions.{eq_refl}
use splits.Outcome.{Result, ok, throw, Thrown}
use splits.Tabs.Worker.{SignatureStatus, Event, sent, polled}
use splits.Tabs.Worker.Echo.{is_confirmed}

-- nothing sent; a payment that the node did not take; the payment with this signature sent, after
-- some polls that did not confirm it; confirmed; a refund sent with this text and answer; and any
-- other order
pub data Phase : Type 0 where
  idle unsent disordered : Phase
  waiting confirmed : String → Phase
  done : (payment wire : String) → Result String → Phase

abbrev pub confirms : Result (Option SignatureStatus) → Bool
confirms (throw e) = false
confirms (ok status) = is_confirmed status

-- `tx` is the text of the payment
abbrev pub step : (tx : String) → Phase → Event → Phase
step tx idle (sent wire (ok payment)) = if wire === tx then waiting payment else disordered
step tx idle (sent wire (throw e)) = if wire === tx then unsent else disordered
step tx (waiting payment) (polled signature r) =
    if signature === payment
    then if confirms r then confirmed payment else waiting payment
    else disordered
step tx (confirmed payment) (sent wire r) = done payment wire r
step tx _ _ = disordered

-- the phase after a trace
abbrev pub phase_from : (tx : String) → Phase → List Event → Phase
phase_from tx p [] = p
phase_from tx p (e ∷ t) = phase_from tx (step tx p e) t

abbrev pub phase : (tx : String) → List Event → Phase
phase tx t = phase_from tx idle t

phase_from-snoc :
    (tx : String) (p : Phase) (t : List Event) (e : Event)
    → phase_from tx p (t ++ e ∷ []) ≡ step tx (phase_from tx p t) e
phase_from-snoc tx p [] e = refl
phase_from-snoc tx p (d ∷ t) e = phase_from-snoc tx (step tx p d) t e

module _ (tx payment : String) where
  pub phase-paid : phase tx (sent tx (ok payment) ∷ []) ≡ waiting payment
  phase-paid = rw (eq_refl tx) refl

  pub phase-unsent : (e : Thrown) → phase tx (sent tx (throw e) ∷ []) ≡ unsent
  phase-unsent e = rw (eq_refl tx) refl

  step-polled :
      (r : Result (Option SignatureStatus))
      → step tx (waiting payment) (polled payment r)
        ≡ (if confirms r then confirmed payment else waiting payment)
  step-polled r = rw (eq_refl payment) refl

  pub phase-polled :
      (t : List Event) (r : Result (Option SignatureStatus))
      → phase tx t ≡ waiting payment
      → phase tx (t ++ polled payment r ∷ [])
        ≡ (if confirms r then confirmed payment else waiting payment)
  phase-polled t r h =
      phase_from-snoc tx idle t (polled payment r)
      ∙ (ap (λ p. step tx p (polled payment r)) h ∙ step-polled r)

  pub phase-refunded :
      (t : List Event) (wire : String) (r : Result String)
      → phase tx t ≡ confirmed payment
      → phase tx (t ++ sent wire r ∷ []) ≡ done payment wire r
  phase-refunded t wire r h =
      phase_from-snoc tx idle t (sent wire r) ∙ ap (λ p. step tx p (sent wire r)) h
