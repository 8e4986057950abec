-- ===== src/Tabs/Worker/Echo/Paid.antt =====
-- What /api/echo/resource sends and asks from the payment on.
use splits.Tabs.Message.{Address}
use splits.Tabs.ApiKey.{TabsApiKeyPayload}
use splits.Prelude.{
  ◌≡◌, refl, sym, subst, ℕ, zero, suc, ◌+◌, ◌≤◌, String, Bool, true, false, List, [], ◌∷◌, ◌++◌,
  length, arith, length-append, if◌then◌else◌, some, ap,
}
use splits.Outcome.{Result, ok, throw}
use splits.Tabs.Action.{
  Triple-weaken, Triple, Triple-pure, Triple-bind, Triple-observed, Triple-return_if, Quiet,
  Triple-lifted, Triple-after, Triple-called, Quiet-outside, Quiet-attempt, Quiet-bind, Quiet-pure,
}
use splits.Tabs.Worker.{Kit, Event, sent, polled, fee_or_default, get_priority_fee_estimate}
use splits.Tabs.Worker.Echo.{
  EchoReply, refund_skipped, refunded, is_confirmed, await_confirmation, send, refund, refund_if,
  submit,
}
use splits.Tabs.Worker.Echo.Phases.{
  Phase, unsent, disordered, waiting, confirmed, done, confirms, phase, phase-paid, phase-unsent,
  phase-polled, phase-refunded,
}
use splits.Tabs.Worker.Echo.Refunds.{IsRefund, derive_refund-RefundTo}

-- the members of an echo's request that decide what is sent
pub record Asked : Type 0 where
  pub executor : Address
  pub tx : String
  pub payload : TabsApiKeyPayload

module _ {W I : Type 0} (kit : Kit W I) (asked : Asked) where
  abbrev pub phase_of : List Event → Phase
  phase_of t = phase asked.tx t

  -- in order, and what was sent after the confirmation is a refund
  abbrev pub Orderly : Phase → Type 0
  Orderly disordered = ⊥
  Orderly (done payment wire r) =
      (vault : Address) × IsRefund kit asked.executor asked.payload vault wire
  Orderly _ = Unit

  abbrev pub InOrder : List Event → Type 0
  InOrder t = Orderly (phase_of t) × (length t ≤ 32)

  -- after the payment was sent
  abbrev pub Sent : Result EchoReply → List Event → Type 0
  Sent (ok (refund_skipped payment)) t = (phase_of t ≡ waiting payment) × (length t ≡ 31)
  Sent (ok (refunded payment signature vault)) t =
      (wire : String) × IsRefund kit asked.executor asked.payload vault wire
      × (phase_of t ≡ done payment wire (ok signature))
      × (length t ≤ 32)
  Sent (ok _) t = ⊥
  Sent (throw e) t = InOrder t

  -- the polls that are made of a payment, and the phase after them
  abbrev Polled : String → Result Bool → List Event → Type 0
  Polled payment (throw e) t = (phase_of t ≡ waiting payment) × (length t ≤ 31)
  Polled payment (ok true) t = (phase_of t ≡ confirmed payment) × (length t ≤ 31)
  Polled payment (ok false) t = (phase_of t ≡ waiting payment) × (length t ≡ 31)

  at_phase : (p : Phase) (t : List Event) → phase_of t ≡ p → Orderly p → Orderly (phase_of t)
  at_phase p t e o = subst Orderly (sym e) o

  await_confirmation-Triple :
      (rounds : ℕ) (payment : String)
      → Triple
          (λ t. (phase_of t ≡ waiting payment) × (length t + rounds ≡ 31))
          (await_confirmation kit rounds payment)
          (Polled payment)
  unfolding await_confirmation
  await_confirmation-Triple zero payment =
      Triple-pure _ (Polled payment) false (λ t (p, n). (p, omega (arith, n)))
  await_confirmation-Triple (suc rounds) payment =
      Triple-bind _ (Polled payment) _ _
        (λ r t.
          (phase_of t ≡ (if confirms r then confirmed payment else waiting payment))
          × (length t + rounds ≡ 31))
        (Triple-observed _ _ _ _ (λ r t (p, n). (
          phase-polled asked.tx payment t r p,
          omega (arith, n, length-append t (polled payment r ∷ [])),
        )))
        (λ e t (p, n). (p, omega (arith, n)))
        (λ status.
          Triple-return_if _ (Polled payment) (is_confirmed status) true _
            (λ t b (p, n). (rw b at p, omega (arith, n)))
            (λ b.
              Triple-weaken _ (Polled payment) _ _ (λ t (p, n). (rw b at p, n))
                (await_confirmation-Triple rounds payment)))

  Quiet-fee : (rpc_url : String) → Quiet (get_priority_fee_estimate kit rpc_url)
  unfolding get_priority_fee_estimate
  Quiet-fee rpc_url =
      Quiet-bind _ _ (Quiet-attempt _ (Quiet-outside (kit.priority_fee_estimate rpc_url)))
        (λ estimate. Quiet-pure (fee_or_default estimate))

  abbrev Confirmed : String → List Event → Type 0
  Confirmed payment t = (phase_of t ≡ confirmed payment) × (length t ≤ 31)

  unrefunded : (payment : String) (t : List Event) → Confirmed payment t → InOrder t
  unrefunded payment t (p, n) = (at_phase (confirmed payment) t p tt, omega (arith, n))

  -- the outcome of the refund's transaction, and what the trace tells of it
  abbrev Handed : (payment vault wire : String) → Result String → List Event → Type 0
  Handed payment vault wire r t = (phase_of t ≡ done payment wire r) × (length t ≤ 32)

  refund-Triple :
      (rpc_url payment : String)
      → Triple (Confirmed payment) (refund kit rpc_url asked.executor asked.payload payment) Sent
  unfolding refund send
  refund-Triple rpc_url payment =
      Triple-lifted (Confirmed payment) Sent _ _ (λ e t h q. unrefunded payment t q)
        λ r to.
          Triple-lifted (Confirmed payment) Sent _ _ (λ e t h q. unrefunded payment t q)
            λ transfer built.
              Triple-after (Confirmed payment) Sent _ _ (Quiet-fee rpc_url)
                (λ e t q. unrefunded payment t q)
                λ fee.
                  Triple-lifted (Confirmed payment) Sent _ _ (λ e t h q. unrefunded payment t q)
                    λ budget priced.
                      Triple-called (Confirmed payment) Sent _ _ (λ e t q. unrefunded payment t q)
                        λ blockhash w answered.
                          Triple-called (Confirmed payment) Sent _ _
                            (λ e t q. unrefunded payment t q)
                            λ wire w' signed.
                              let is_refund : IsRefund kit asked.executor asked.payload
                                  r.smart_account wire =
                                record {
                                  transfer = r.transfer;
                                  to_vault = derive_refund-RefundTo kit _ _ r to;
                                  price = fee;
                                  budget = budget;
                                  instruction = transfer;
                                  blockhash = blockhash;
                                  before_blockhash = w;
                                  before_signing = w';
                                  priced = priced;
                                  built = built;
                                  answered = answered;
                                  signed = signed;
                                } in
                              Triple-bind (Confirmed payment) Sent _ _
                                (Handed payment r.smart_account wire)
                                (Triple-observed (Confirmed payment) _ _ _ (λ o t (p, n). (
                                  phase-refunded asked.tx payment t wire o p,
                                  omega (arith, n, length-append t (sent wire o ∷ [])),
                                )))
                                (λ e t (p, n). (
                                  at_phase (done payment wire (throw e)) t p
                                      (r.smart_account, is_refund),
                                  n,
                                ))
                                (λ signature.
                                  Triple-pure _ Sent _ (λ t (p, n). (wire, is_refund, p, n)))

  refund_if-Triple :
      (b : Bool) (rpc_url payment : String)
      → Triple
          (λ t. Polled payment (ok b) t)
          (refund_if kit b rpc_url asked.executor asked.payload payment)
          Sent
  unfolding refund_if
  refund_if-Triple true rpc_url payment = refund-Triple rpc_url payment
  refund_if-Triple false rpc_url payment = Triple-pure _ Sent _ (λ t q. q)

  pub submit-Sent :
      (rpc_url : String)
      → Triple (λ t. t ≡ []) (submit kit rpc_url asked.executor asked.tx (some asked.payload)) Sent
  unfolding submit send
  submit-Sent rpc_url =
      Triple-bind _ Sent _ _ (λ r t. t ≡ sent asked.tx r ∷ [])
        (Triple-observed _ _ _ _ (λ r t q. ap (λ t. t ++ sent asked.tx r ∷ []) q))
        (λ e t q.
          subst (λ t. Sent (throw e) t) (sym q)
            (
              at_phase unsent (sent asked.tx (throw e) ∷ []) (phase-unsent asked.tx asked.tx e) tt,
              omega arith,
            ))
        (λ payment.
          Triple-weaken _ Sent (λ t. (phase_of t ≡ waiting payment) × (length t + 30 ≡ 31)) _
            (λ t q.
              subst (λ t. (phase_of t ≡ waiting payment) × (length t + 30 ≡ 31)) (sym q)
                (phase-paid asked.tx payment, refl))
            (Triple-bind _ Sent _ _ (Polled payment) (await_confirmation-Triple 30 payment)
              (λ e t (p, n). (at_phase (waiting payment) t p tt, omega (arith, n)))
              (λ b. refund_if-Triple b rpc_url payment)))
