-- ===== src/Solana/Client/Transaction/Trace.antt =====
-- A submission hands at most one message to the wallet, and exactly one if it succeeds.
use mathlib.Core.Option
use splits.Prelude.{
  ◌≡◌, refl, sym, ◌⊎◌, inl, inr, ℕ, Bool, Option, none, some, List, [], ◌∷◌, ◌++◌, append-nil,
}
use splits.Outcome.{Result, ok, throw, Thrown, Result-cases}
use splits.Solana.Types.{
  Address, Signature, Instruction, InstructionData, set_compute_unit_limit, set_compute_unit_price,
  Lifetime, TransactionMessage, Commitment, confirmed,
}
use splits.Solana.Network.{Network, SendOptions}
use splits.Solana.Action.{Store, sign_and_send, ◌>>=◌}
use splits.Solana.Action.Sends.{SendsAt, Sends}
use splits.Solana.Client.Transaction.{
  BuildOptions, compute_budget_program, limit_instruction, price_instruction, budget, message_of,
  submit,
}

-- an instruction of the compute budget's program
abbrev pub budgets : InstructionData → Instruction
budgets payload = record {
  program_address = compute_budget_program;
  accounts = [];
  payload = payload;
}

-- The instructions of a transaction with these options: the compute limit first, if it is given,
-- the price next, if it is given, and then the instructions proper.
abbrev pub Budgeted : Option ℕ → Option ℕ → List Instruction → List Instruction → Type 0
Budgeted none none proper all = all ≡ proper
Budgeted (some units) none proper all = all ≡ budgets (set_compute_unit_limit units) ∷ proper
Budgeted none (some price) proper all = all ≡ budgets (set_compute_unit_price price) ∷ proper
Budgeted (some units) (some price) proper all =
    all ≡ budgets (set_compute_unit_limit units) ∷ budgets (set_compute_unit_price price) ∷ proper

-- the message that holds these instructions, with this payer
pub record IsMessage (fee_payer : Address) (instructions : List Instruction)
    (options : BuildOptions) (message : TransactionMessage) : Type 0 where
  pub payer : message.fee_payer ≡ fee_payer
  pub budgeted :
      Budgeted options.compute_unit_limit options.compute_unit_price instructions
        message.instructions

message_of-Budgeted :
    (limit price : Option ℕ) (proper : List Instruction)
    → Budgeted limit price proper ((limit_instruction limit ++ price_instruction price) ++ proper)
unfolding limit_instruction price_instruction
message_of-Budgeted none none proper = refl
message_of-Budgeted (some units) none proper = refl
message_of-Budgeted none (some price) proper = refl
message_of-Budgeted (some units) (some price) proper = refl

message_of-IsMessage :
    (fee_payer : Address) (instructions : List Instruction) (options : BuildOptions)
    (lifetime : Lifetime)
    → IsMessage fee_payer instructions options (message_of fee_payer instructions options lifetime)
unfolding message_of budget
message_of-IsMessage fee_payer instructions options lifetime = record {
  payer = refl;
  budgeted = message_of-Budgeted options.compute_unit_limit options.compute_unit_price instructions;
}

-- One message was sent: the given instructions behind the compute budget's, paid by the payer.
abbrev pub SentOne : Address → List Instruction → BuildOptions → List TransactionMessage → Type 0
SentOne fee_payer instructions options new =
    (m : TransactionMessage) × (new ≡ m ∷ []) × IsMessage fee_payer instructions options m

-- A success sent one such message; a throw sent none, or that one.
abbrev pub Submitted :
    Address → List Instruction → BuildOptions → Result Signature → List TransactionMessage → Type 0
Submitted fee_payer instructions options (ok signature) new =
    SentOne fee_payer instructions options new
Submitted fee_payer instructions options (throw e) new =
    (new ≡ []) ⊎ SentOne fee_payer instructions options new

-- None was sent, or one that the wallet pays.
abbrev pub AtMostOne : Address → List TransactionMessage → Type 0
AtMostOne wallet new =
    (new ≡ []) ⊎ ((m : TransactionMessage) × (new ≡ m ∷ []) × (m.fee_payer ≡ wallet))

pub submission_failed :
    (wallet : Address) (is : List Instruction) (options : BuildOptions) (e : Thrown)
    (new : List TransactionMessage)
    → Submitted wallet is options (throw e) new
    → AtMostOne wallet new
submission_failed wallet is options e new (inl none_sent) = inl none_sent
submission_failed wallet is options e new (inr (m, one, is_message)) =
    inr (m, one, is_message.payer)

module _ {W : Type 0} (net : Network W) where
  sign_and_send_lem :
      (message : TransactionMessage) (options : SendOptions) (s : Store W)
      → (sign_and_send net message options s).1.sent ≡ s.sent ++ message ∷ []
  unfolding sign_and_send
  sign_and_send_lem message options s = refl

  sent-Submitted :
      (fee_payer : Address) (instructions : List Instruction) (options : BuildOptions)
      (lifetime : Lifetime) (r : Result Signature)
      → Submitted fee_payer instructions options r
          (message_of fee_payer instructions options lifetime ∷ [])
  sent-Submitted fee_payer instructions options lifetime (ok signature) =
      (_, refl, message_of-IsMessage fee_payer instructions options lifetime)
  sent-Submitted fee_payer instructions options lifetime (throw e) =
      inr (_, refl, message_of-IsMessage fee_payer instructions options lifetime)

  pub submit-Sends :
      (fee_payer : Address) (instructions : List Instruction) (options : BuildOptions)
      (commitment : Option Commitment) (signal : Bool)
      → Sends
          (Submitted fee_payer instructions options)
          (submit net fee_payer instructions options commitment signal)
  unfolding submit ◌>>=◌ sign_and_send
  submit-Sends fee_payer instructions options commitment signal = record {
    at = λ s. elim (Result-cases (net.get_latest_blockhash s.world).0) [
      | inl (e, h) ↦ ([], rw h (sym (append-nil s.sent)), rw h (inl refl))
      | inr (l, h) ↦ (
        message_of fee_payer instructions options l ∷ [],
        rw h refl,
        rw h (sent-Submitted fee_payer instructions options l _),
      )
    ];
  }

  -- no blockhash came: nothing was sent
  pub record Unsent (s : Store W) (r : Result Signature) (new : List TransactionMessage)
      : Type 0 where
    pub failure : Thrown
    pub unanswered : (net.get_latest_blockhash s.world).0 ≡ throw failure
    pub outcome : r ≡ throw failure
    pub none_sent : new ≡ []

  -- a blockhash came: the message was handed to the wallet, whose answer is the outcome
  pub record Handed (fee_payer : Address) (instructions : List Instruction) (options : BuildOptions)
      (commitment : Option Commitment) (signal : Bool) (s : Store W) (r : Result Signature)
      (new : List TransactionMessage) : Type 0 where
    pub lifetime : Lifetime
    pub message : TransactionMessage
    pub answered : (net.get_latest_blockhash s.world).0 ≡ ok lifetime
    pub is_message : IsMessage fee_payer instructions options message
    pub lives : message.lifetime_constraint ≡ lifetime
    pub outcome :
        r
        ≡ (net.sign_and_send message
            (record { commitment = Option.get_or commitment confirmed; with_abort_signal = signal })
            (net.get_latest_blockhash s.world).1).0
    pub one_sent : new ≡ message ∷ []

  abbrev pub Submits :
      Address
      → List Instruction
      → BuildOptions
      → Option Commitment
      → Bool
      → Store W
      → Result Signature
      → List TransactionMessage
      → Type 0
  Submits fee_payer instructions options commitment signal s r new =
      Unsent s r new ⊎ Handed fee_payer instructions options commitment signal s r new

  -- A submission in any state appends nothing to the trace, and throws that error, if the request
  -- for a blockhash throws. Otherwise it appends exactly one message: it is paid by the given
  -- payer, lives as long as that blockhash, and holds the compute limit if it is given, the compute
  -- price if it is given, and then the given instructions; and the outcome is what the wallet
  -- answers to this message, with the given commitment or `confirmed`.
  pub submit_lem :
      (fee_payer : Address) (instructions : List Instruction) (options : BuildOptions)
      (commitment : Option Commitment) (signal : Bool) (s : Store W)
      → SendsAt
          (Submits fee_payer instructions options commitment signal s)
          (submit net fee_payer instructions options commitment signal)
          s
  unfolding submit ◌>>=◌ sign_and_send message_of
  submit_lem fee_payer instructions options commitment signal s =
      elim (Result-cases (net.get_latest_blockhash s.world).0) [
        | inl (e, h) ↦ (
          [],
          rw h (sym (append-nil s.sent)),
          inl (record { failure = e; unanswered = h; outcome = rw h refl; none_sent = refl }),
        )
        | inr (l, h) ↦ (
          message_of fee_payer instructions options l ∷ [],
          rw h refl,
          inr (record {
            lifetime = l;
            message = message_of fee_payer instructions options l;
            answered = h;
            is_message = message_of-IsMessage fee_payer instructions options l;
            lives = refl;
            outcome = rw h refl;
            one_sent = refl;
          }),
        )
      ]
