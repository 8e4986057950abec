-- ===== src/Solana/Client/Execute/Trace.antt =====
-- What executeImpl hands to the wallet: one transaction, or two if the first failed on a stale
-- protocol config.
use splits.Prelude.{
  true, false, Bool, Bool-cases, String, ◌≡◌, refl, ◌⊎◌, inl, inr, true, Option, none, some, List,
  [], ◌∷◌, ◌++◌, append-nil,
}
use splits.Outcome.{Result, ok, throw, Thrown, Result-cases, ◌>>=◌ as ◌>>=ʳ◌}
use splits.Solana.Types.{Address, Signature, SplitConfig, Instruction, TransactionMessage}
use splits.Solana.Network.{Network}
use splits.Solana.Action.{Store, Action}
use splits.Solana.Action.Sends.{
  SendsAt, SendsAt-bind, SendsAt-try, Quiet-set_protocol_config, Sends-lift, Sends-weaken, Sends,
  Quiet-gets, Sends-pure, Sends-bind-Quiet, Sends-return_if,
}
use splits.Solana.Reads.Silence.{Quiet-find_split_config}
use splits.Solana.Reads.{find_split_config}
use splits.Solana.Detect.{detect_token_program}
use splits.Solana.Client.Transaction.{submit}
use splits.Solana.Detect.Silence.{Quiet-detect_token_program}
use splits.Solana.Instructions.{
  ExecuteSplitResult, success, not_found, not_a_split, execute_split_instruction,
}
use splits.Solana.Instructions.Silence.{Quiet-execute_split_instruction}
use splits.Solana.Instructions.Execution.{Executes, Executable, execute_split_instruction-Yields}
use splits.Solana.Client.Results.{ExecuteResult, executed, skipped, failed}
use splits.Solana.Client.Failures.{handle_transaction_error}
use splits.Solana.Client.Transaction.Trace.{
  AtMostOne, SentOne, Submitted, submission_failed, submit-Sends,
}
use splits.Solana.Client.Execute.{
  execute_impl, ExecuteOptions, execute_build_options, is_stale_config_error, aborted_result, skip,
  execute_caught, execute_outcome, execute_built, execute_existing, execute_once,
}

module _ {W : Type 0} (net : Network W) (shown : String) (wallet : Address) (split_config : Address)
    (options : ExecuteOptions) where
  -- One message was sent: an execution of the split, alone.
  pub record SentExecution (new : List TransactionMessage) : Type 0 where
    pub program : Address
    pub instruction : Instruction
    pub executes : Executes net wallet program split_config instruction
    pub sent_one : SentOne wallet (instruction ∷ []) (execute_build_options options) new

  abbrev pub OnceTrace : Result ExecuteResult → List TransactionMessage → Type 0
  OnceTrace (ok (executed signature)) new = SentExecution new
  OnceTrace (ok (skipped reason message)) new = new ≡ []
  OnceTrace (ok (failed r)) new = AtMostOne wallet new
  OnceTrace (throw e) new = AtMostOne wallet new

  -- An attempt that starts in the state `s`: what it reads and builds there, and the outcome of
  -- its submission.
  pub record Attempt (s : Store W) (outcome : Result Signature) : Type 0 where
    pub config : SplitConfig
    pub program : Address
    pub instruction : Instruction
    pub found : (find_split_config net split_config s).0 ≡ ok (some config)
    pub detected :
        (detect_token_program net config.mint (find_split_config net split_config s).1).0
        ≡ ok program
    pub built :
        (execute_split_instruction net split_config wallet
          (some program)
          (detect_token_program net config.mint (find_split_config net split_config s).1).1).0
        ≡ ok (success instruction)
    pub submitted :
        (submit net wallet
          (instruction ∷ [])
          (execute_build_options options)
          options.commitment
          options.has_abort_signal
          (execute_split_instruction net split_config wallet
            (some program)
            (detect_token_program net config.mint (find_split_config net split_config s).1).1).1).0
        ≡ outcome

  -- The attempt in the state `s` failed on a stale protocol config; then a second was made.
  pub record Retried (s : Store W) (r : Result ExecuteResult) (new : List TransactionMessage)
      : Type 0 where
    pub failure : Thrown
    pub attempt : Attempt s (throw failure)
    pub stale : is_stale_config_error failure ≡ true
    pub token_program : Address
    pub executes : Executes net wallet token_program split_config attempt.instruction
    pub first : List TransactionMessage
    pub first_attempt :
        Submitted wallet
          (attempt.instruction ∷ [])
          (execute_build_options options)
          (throw failure)
          first
    pub second : List TransactionMessage
    pub both : new ≡ first ++ second
    pub second_attempt : OnceTrace r second

  abbrev pub ExecuteTrace : Store W → Result ExecuteResult → List TransactionMessage → Type 0
  ExecuteTrace s r new = OnceTrace r new ⊎ Retried s r new

  failed_trace :
      (e : Thrown) (new : List TransactionMessage)
      → AtMostOne wallet new
      → OnceTrace (◌>>=ʳ◌ (handle_transaction_error e) (λ r. ok (failed r))) new
  failed_trace e new h = elim (Result-cases (handle_transaction_error e)) [
    | inl (x, q) ↦ rw q h
    | inr (r, q) ↦ rw q h
  ]

  -- the submission of an attempt in the state `s` had this outcome, and `new` was sent
  record Attempted (s : Store W) (r : Result Signature) (new : List TransactionMessage)
      : Type 0 where
    made : Attempt s r
    executes : Executes net wallet made.program split_config made.instruction
    submitted : Submitted wallet (made.instruction ∷ []) (execute_build_options options) r new

  -- one attempt from the state `s`, for either meaning of the recursive call
  module _ (again : Option (Action W ExecuteResult))
      (Q : Result ExecuteResult → List TransactionMessage → Type 0) (s : Store W)
      (once : (r : Result ExecuteResult) (new : List TransactionMessage)
        → OnceTrace r new
        → Q r new)
      (caught : (e : Thrown) (new : List TransactionMessage)
        → Attempted s (throw e) new
        → Sends
            (λ out more. Q out (new ++ more))
            (execute_caught net shown wallet split_config options again e)) where
    thrown : (e : Thrown) → Q (throw e) []
    thrown e = once (throw e) [] (inl refl)

    at_end :
        (r : Result ExecuteResult) (new : List TransactionMessage)
        → OnceTrace r new
        → Q r (new ++ [])
    at_end r new h = rw (append-nil new) (once r new h)

    execute_outcome-Sends :
        (r : Result Signature) (new : List TransactionMessage)
        → Attempted s r new
        → Sends
            (λ out more. Q out (new ++ more))
            (execute_outcome net shown wallet split_config options again r)
    unfolding execute_outcome aborted_result
    execute_outcome-Sends (ok signature) new x = Sends-pure _ _ (
        at_end (ok (executed signature)) new (record {
          program = x.made.program;
          instruction = x.made.instruction;
          executes = x.executes;
          sent_one = x.submitted;
        }))
    execute_outcome-Sends (throw e) new x =
        let none_or_one : AtMostOne wallet new =
          submission_failed wallet _ (execute_build_options options) e new x.submitted in
        Sends-bind-Quiet _ _ _ (Quiet-gets _) (λ y. at_end (throw y) new none_or_one)
          (λ aborted.
            Sends-return_if _ _ _ _ (at_end (ok (aborted_result shown e)) new none_or_one)
              (caught e new x))

    execute_built-SendsAt :
        (c : SplitConfig) (program : Address) (r : ExecuteSplitResult)
        → (find_split_config net split_config s).0 ≡ ok (some c)
        → (detect_token_program net c.mint (find_split_config net split_config s).1).0 ≡ ok program
        → (execute_split_instruction net split_config wallet
            (some program)
            (detect_token_program net c.mint (find_split_config net split_config s).1).1).0
          ≡ ok r
        → Executable net wallet program split_config r
        → SendsAt Q
            (execute_built net shown wallet split_config options again r)
            (execute_split_instruction net split_config wallet
              (some program)
              (detect_token_program net c.mint (find_split_config net split_config s).1).1).1
    unfolding execute_built skip
    execute_built-SendsAt c program (success i) found detected built x =
        SendsAt-try _ Q _ _ _ (submit-Sends net _ _ _ _ _) (λ new h.
          execute_outcome-Sends _ new (record {
            made = record {
              config = c;
              program = program;
              instruction = i;
              found = found;
              detected = detected;
              built = built;
              submitted = refl;
            };
            executes = x;
            submitted = h;
          }))
    execute_built-SendsAt c program (not_found a) found detected built x =
        (Sends-pure Q _ (once (ok (skip split_config)) [] refl)).at _
    execute_built-SendsAt c program (not_a_split a) found detected built x = absurd x

    execute_existing-SendsAt :
        (o : Option SplitConfig)
        → (find_split_config net split_config s).0 ≡ ok o
        → SendsAt Q
            (execute_existing net shown wallet split_config options again o)
            (find_split_config net split_config s).1
    unfolding execute_existing skip
    execute_existing-SendsAt none found =
        (Sends-pure Q _ (once (ok (skip split_config)) [] refl)).at _
    execute_existing-SendsAt (some c) found =
        SendsAt-bind Q _ _ _ (Quiet-detect_token_program net _) thrown (λ program detected.
          SendsAt-bind Q _ _ _ (Quiet-execute_split_instruction net _ _ _) thrown (λ r built.
            execute_built-SendsAt c program r found detected built
              ((execute_split_instruction-Yields net _ _ _).at _ r built)))

    execute_once-SendsAt : SendsAt Q (execute_once net shown wallet split_config options again) s
    unfolding execute_once
    execute_once-SendsAt =
        SendsAt-bind Q _ _ s (Quiet-find_split_config net _) thrown execute_existing-SendsAt

  -- the `catch` of a retry
  caught_in_retry :
      (s : Store W) (e : Thrown) (new : List TransactionMessage)
      → Attempted s (throw e) new
      → Sends
          (λ out more. OnceTrace out (new ++ more))
          (execute_caught net shown wallet split_config options none e)
  unfolding execute_caught
  caught_in_retry s e new x = Sends-lift _ _ (
      rw (append-nil new) (
        failed_trace e new
          (submission_failed wallet _ (execute_build_options options) e new x.submitted)))

  retry-Sends : Sends OnceTrace (execute_once net shown wallet split_config options none)
  retry-Sends = record {
    at = λ s. execute_once-SendsAt none OnceTrace s (λ r new h. h) (caught_in_retry s);
  }

  caught_first :
      (s : Store W) (e : Thrown) (new : List TransactionMessage)
      → Attempted s (throw e) new
      → Sends
          (λ out more. ExecuteTrace s out (new ++ more))
          (execute_caught net shown wallet split_config options
            (some (execute_once net shown wallet split_config options none))
            e)
  unfolding execute_caught splits.Solana.Action.◌>>=◌
      splits.Solana.Reads.invalidate_protocol_config_cache
  caught_first s e new x =
      let one : AtMostOne wallet new =
        submission_failed wallet _ (execute_build_options options) e new x.submitted in
      elim (Bool-cases (is_stale_config_error e)) [
        | inl stale ↦ rw stale (
            Sends-bind-Quiet _ _ _ (Quiet-set_protocol_config none)
              (λ y. inl (rw (append-nil new) one))
              (λ _.
                Sends-weaken _ _ _
                  (λ r more second. inr (record {
                    failure = e;
                    attempt = x.made;
                    stale = stale;
                    token_program = x.made.program;
                    executes = x.executes;
                    first = new;
                    first_attempt = x.submitted;
                    second = more;
                    both = refl;
                    second_attempt = second;
                  }))
                  retry-Sends))
        | inr other ↦ rw other (Sends-lift _ _ (inl (rw (append-nil new) (failed_trace e new one))))
      ]

  execute_impl-SendsAt :
      (is_retry : Bool) (s : Store W)
      → SendsAt (ExecuteTrace s) (execute_impl net shown wallet split_config options is_retry) s
  unfolding execute_impl
  execute_impl-SendsAt true s =
      (Sends-weaken OnceTrace (ExecuteTrace s) _ (λ r new h. inl h) retry-Sends).at s
  execute_impl-SendsAt false s =
      execute_once-SendsAt (some (execute_once net shown wallet split_config options none))
        (ExecuteTrace s) s (λ r new h. inl h) (caught_first s)

  -- Run in any state, `executeImpl` makes one attempt, or two; never three. Two are made only if
  -- the first one, which is the attempt of this state, with the config found there, the program
  -- detected and the instruction built after it, was submitted and failed with an error of a stale
  -- protocol config; what both appended stands in their order. An attempt that returns `executed`
  -- appends exactly one message, an execution of the split alone, paid by the wallet; one that
  -- returns `skipped` none; one that fails or throws at most one message that the wallet pays.
  pub execute_impl_lem :
      (is_retry : Bool) (s : Store W)
      → SendsAt (ExecuteTrace s) (execute_impl net shown wallet split_config options is_retry) s
  execute_impl_lem is_retry s = execute_impl-SendsAt is_retry s

  -- A retry makes one attempt: it appends a single message if it returns `executed`, none if it
  -- returns `skipped`, and at most one, paid by the wallet, if it fails or throws.
  pub execute_impl_retry :
      (s : Store W) → SendsAt OnceTrace (execute_impl net shown wallet split_config options true) s
  unfolding execute_impl
  execute_impl_retry s = retry-Sends.at s
