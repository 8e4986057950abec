-- ===== src/Evm/Execute/Trace.antt =====
-- What executeSplit of the EVM SDK writes, for each outcome.
use splits.Prelude.{
  String, ℕ, ◌≡◌, refl, ◌⊎◌, inl, inr, Option, none, some, List, [], ◌∷◌, append-nil,
}
use splits.Outcome.{Result, ok, throw}
use splits.Evm.Types.{
  Address, EvmExecuteResult, executed, skipped, failed, Clients, Call, execute_split,
}
use splits.Evm.Action.{
  WritesAt, Store, Writes, Writes-pure, Writes-return_if, Reads-outside, write_contract-Writes,
  Writes-bind, Writes-finish, Writes-bind-Reads, Reads, Reads-attempt,
}
use splits.Evm.Helpers.{is_cascade_split}
use splits.Evm.Execute.{
  execute_outcome, distribute, above_threshold, execute_body, execute_connected, execute_split_impl,
}

module _ {W : Type 0} (clients : Clients W) (shown : String) (split : Address) where
  -- Exactly one call was written: the execution of the split.
  abbrev pub ExecutionWritten : List Call → Type 0
  ExecutionWritten new = new ≡ execute_split split ∷ []

  abbrev pub ExecuteTrace : Result EvmExecuteResult → List Call → Type 0
  ExecuteTrace (ok (executed hash)) new = ExecutionWritten new
  ExecuteTrace (ok (skipped reason)) new = new ≡ []
  ExecuteTrace (ok (failed failure)) new = (new ≡ []) ⊎ ExecutionWritten new
  ExecuteTrace (throw e) new = ⊥

  -- of the body of the `try`
  abbrev BodyTrace : Result EvmExecuteResult → List Call → Type 0
  BodyTrace (ok result) new = ExecuteTrace (ok result) new
  BodyTrace (throw e) new = (new ≡ []) ⊎ ExecutionWritten new

  distribute-Writes : Writes BodyTrace (distribute clients shown split)
  unfolding distribute
  distribute-Writes =
      Writes-bind-Reads _ _ _ (Reads-outside _) (λ e. inl refl)
        (λ has_funds.
          Writes-return_if _ _ _ _ (λ _. refl)
            (λ _.
              Writes-bind _ _ _ _ (write_contract-Writes clients _) (λ e new h. inr h)
                (λ hash new h.
                  Writes-bind-Reads _ _ _ (Reads-outside _) (λ e. inr (rw (append-nil new) h))
                    (λ receipt. Writes-pure _ _ (rw (append-nil new) h)))))

  above_threshold-Writes : (o : Option ℕ) → Writes BodyTrace (above_threshold clients shown split o)
  unfolding above_threshold
  above_threshold-Writes none = distribute-Writes
  above_threshold-Writes (some min_balance) =
      Writes-bind-Reads _ _ _ (Reads-outside _) (λ e. inl refl)
        (λ balance. Writes-return_if _ _ _ _ (λ _. refl) (λ _. distribute-Writes))

  is_cascade_split-Reads : Reads (is_cascade_split clients split)
  unfolding is_cascade_split
  is_cascade_split-Reads =
      Writes-bind-Reads _ _ _ (Reads-attempt _ (Reads-outside _)) (λ e. refl)
        (λ r. Writes-pure _ _ refl)

  execute_body-Writes : (o : Option ℕ) → Writes BodyTrace (execute_body clients shown split o)
  unfolding execute_body
  execute_body-Writes o =
      Writes-bind-Reads _ _ _ is_cascade_split-Reads (λ e. inl refl)
        (λ is_valid. Writes-return_if _ _ _ _ (λ _. refl) (λ _. above_threshold-Writes o))

  finish :
      (r : Result EvmExecuteResult) (new : List Call)
      → BodyTrace r new
      → ExecuteTrace (execute_outcome shown r) new
  unfolding execute_outcome
  finish (ok result) new h = h
  finish (throw e) new h = h

  execute_connected-Writes :
      (min_balance : Option ℕ) (o : Option Address)
      → Writes ExecuteTrace (execute_connected clients shown split min_balance o)
  unfolding execute_connected
  execute_connected-Writes min_balance none = Writes-pure _ _ (inl refl)
  execute_connected-Writes min_balance (some account) =
      Writes-finish _ _ _ _ (execute_body-Writes min_balance) finish

  pub execute_split_impl-Writes :
      (min_balance : Option ℕ)
      → Writes ExecuteTrace (execute_split_impl clients shown split min_balance)
  unfolding execute_split_impl
  execute_split_impl-Writes min_balance = execute_connected-Writes min_balance clients.account

  -- Run in any state, `executeSplit` of the EVM SDK never throws, and appends to the trace of
  -- contract calls exactly what its outcome says: `executed` one execution of the split, `skipped`
  -- nothing, a failure nothing or that one execution.
  pub execute_split_impl_lem :
      (min_balance : Option ℕ) (s : Store W)
      → WritesAt ExecuteTrace (execute_split_impl clients shown split min_balance) s
  execute_split_impl_lem min_balance s = (execute_split_impl-Writes min_balance).at s
