-- ===== src/Solana/Client/Ensure/Trace.antt =====
-- What ensureSplitImpl hands to the wallet, for each outcome.
use splits.Solana.Action.{Store}
use mathlib.Core.Option
use splits.Solana.Instructions.{CreateSplitConfigResult}
use splits.Prelude.{
  subst₂, ℕ, ◌≡◌, refl, inl, inr, Bool, true, false, Option, none, some, List, [], ◌∷◌, ◌++◌,
}
use splits.Outcome.{Result, ok, throw, Thrown, Result-cases, ◌>>=◌ as ◌>>=ʳ◌}
use splits.Solana.Types.{Address, Signature, SplitConfig, Instruction, TransactionMessage}
use splits.Solana.Network.{Network}
use splits.Solana.Action.Sends.{
  SendsAt, SendsAt-bind, SendsAt-bind_lift, Sends, Sends-pure, Sends-bind-Quiet, Sends-finish,
  Sends-return_if,
}
use splits.Solana.Action.Yields.{Sends-bind-Yields, Sends-bind_lift}
use splits.Solana.Reads.Silence.{Quiet-find_split_config, Quiet-get_vault_balance}
use splits.Solana.Detect.Silence.{Quiet-detect_token_program}
use splits.Solana.Derive.{derive_split_config, derive_vault}
use splits.Solana.Atas.Silence.{Quiet-check_recipient_atas}
use splits.Solana.Instructions.Silence.{
  Quiet-create_split_config_instruction, Quiet-update_split_config_instruction,
}
use splits.Solana.Instructions.Shape.{Creates, create_split_config_instruction-Yields}
use splits.Solana.Instructions.Changes.{Updates, update_split_config_instruction-Yields}
use splits.Solana.Client.Results.{EnsureResult, failed, ClientConfig, EnsureParams}
use splits.Solana.Client.Failures.{handle_transaction_error}
use splits.Solana.Client.Transaction.Trace.{AtMostOne, submission_failed, Submitted, submit-Sends}
use splits.Solana.Client.Shared.Silence.{Quiet-calculate_total_rent}
use splits.Solana.Client.Ensure.{
  build_options, Found, update_outcome, create_outcome, ata_instructions, ensure_updated,
  ensure_existing, ensure_created, ensure_found, ensure_split_impl,
}
use splits.Solana.Client.Ensure.Outcomes.{Compared, EnsureTrace, IsDetected, HasRead, IsMissing}

module _ {W : Type 0} (net : Network W) (wallet : Address) (config : ClientConfig)
    (params : EnsureParams) (start : Store W) where
  -- what the derivations have found
  record IsDerived (f : Found) : Type 0 where
    config_derived : derive_split_config net wallet params.mint params.unique_id ≡ ok f.split_config
    vault_derived : derive_vault net f.split_config params.mint f.token_program ≡ ok f.vault
    detected : IsDetected net wallet config params start f.token_program
    checked : IsMissing net wallet config params start f.split_config f.missing

  thrown : (e : Thrown) → EnsureTrace net wallet config params start (throw e) []
  thrown e = inl refl

  failed_trace :
      (e : Thrown) (new : List TransactionMessage)
      → AtMostOne wallet new
      → EnsureTrace net wallet config params start
          (◌>>=ʳ◌ (handle_transaction_error e) (λ r. ok (failed r)))
          new
  failed_trace e new h = elim (Result-cases (handle_transaction_error e)) [
    | inl (x, q) ↦ rw q h
    | inr (r, q) ↦ rw q h
  ]

  update_finish :
      (f : Found) (i : Instruction)
      → IsDerived f
      → Compared net wallet config params start f.split_config false
      → Updates net wallet f.token_program f.split_config params.recipients i
      → (r : Result Signature) (new : List TransactionMessage)
      → Submitted wallet (ata_instructions wallet params f ++ (i ∷ [])) (build_options config) r new
      → EnsureTrace net wallet config params start (update_outcome f r) new
  unfolding update_outcome ata_instructions
  update_finish f i d q u (ok signature) new h = record {
    differ = q;
    program = f.token_program;
    instruction = i;
    updates = u;
    config_derived = d.config_derived;
    vault_derived = d.vault_derived;
    sent_with = record {
      missing = f.missing;
      detected = d.detected;
      checked = d.checked;
      reported = refl;
      sent_one = h;
    };
  }
  update_finish f i d q u (throw e) new h =
      failed_trace e new (submission_failed wallet _ (build_options config) e new h)

  create_finish :
      (f : Found) (r : CreateSplitConfigResult) (rent : ℕ)
      → IsDerived f
      → HasRead net wallet config params start f.split_config none
      → Creates net wallet params.mint params.unique_id f.token_program
          (Option.get_or params.payer wallet)
          params.recipients
          f.split_config
          f.vault
          r.instruction
      → (o : Result Signature) (new : List TransactionMessage)
      → Submitted wallet
          (ata_instructions wallet params f ++ (r.instruction ∷ []))
          (build_options config)
          o
          new
      → EnsureTrace net wallet config params start (create_outcome f rent o) new
  unfolding create_outcome ata_instructions
  create_finish f r rent d a c (ok signature) new h = record {
    absent = a;
    program = f.token_program;
    instruction = r.instruction;
    creates = c;
    sent_with = record {
      missing = f.missing;
      detected = d.detected;
      checked = d.checked;
      reported = refl;
      sent_one = h;
    };
  }
  create_finish f r rent d a c (throw e) new h =
      failed_trace e new (submission_failed wallet _ (build_options config) e new h)

  ensure_updated-Sends :
      (f : Found)
      → IsDerived f
      → Compared net wallet config params start f.split_config false
      → Sends
          (EnsureTrace net wallet config params start)
          (ensure_updated net wallet config params f)
  unfolding ensure_updated
  ensure_updated-Sends f d q =
      Sends-bind-Yields _ _ _ _ (Quiet-update_split_config_instruction net _ _ _ _)
        (update_split_config_instruction-Yields net _ _ _ _) thrown
        (λ i u. Sends-finish _ _ _ _ (submit-Sends net _ _ _ _ _) (update_finish f i d q u))

  -- the addresses of the instruction are the ones that the code derived before
  same_addresses :
      (f : Found) (r : CreateSplitConfigResult)
      → IsDerived f
      → Creates net wallet params.mint params.unique_id f.token_program
          (Option.get_or params.payer wallet)
          params.recipients
          r.split_config
          r.vault
          r.instruction
      → Creates net wallet params.mint params.unique_id f.token_program
          (Option.get_or params.payer wallet)
          params.recipients
          f.split_config
          f.vault
          r.instruction
  same_addresses f r d c =
      let same : r.split_config ≡ f.split_config = cc (d.config_derived, c.config_derived) in
      let vaults : derive_vault net f.split_config params.mint f.token_program ≡ ok r.vault =
        rw (← same) c.vault_derived in
      let same' : r.vault ≡ f.vault = cc (d.vault_derived, vaults) in
      subst₂
        (λ sc v.
          Creates net wallet params.mint params.unique_id f.token_program
            (Option.get_or params.payer wallet) params.recipients sc v r.instruction)
        same same' c

  ensure_created-Sends :
      (f : Found)
      → IsDerived f
      → HasRead net wallet config params start f.split_config none
      → Sends
          (EnsureTrace net wallet config params start)
          (ensure_created net wallet config params f)
  unfolding ensure_created
  ensure_created-Sends f d a =
      Sends-bind-Yields _ _ _ _ (Quiet-create_split_config_instruction net _)
        (create_split_config_instruction-Yields net _ _ _ _ _ _) thrown
        (λ r c. Sends-bind-Quiet _ _ _ (Quiet-calculate_total_rent net) thrown (λ rent.
          Sends-finish _ _ _ _ (submit-Sends net _ _ _ _ _)
            (create_finish f r rent d a (same_addresses f r d c))))

  ensure_existing-Sends :
      (f : Found) (existing : SplitConfig) (same : Bool)
      → IsDerived f
      → Compared net wallet config params start f.split_config same
      → Sends
          (EnsureTrace net wallet config params start)
          (ensure_existing net wallet config params f existing same)
  unfolding ensure_existing
  ensure_existing-Sends f existing true d q = Sends-pure _ _ (q, refl)
  ensure_existing-Sends f existing false d q =
      Sends-bind-Quiet _ _ _ (Quiet-get_vault_balance net _) thrown (λ balance.
        Sends-return_if _ _ _ _ refl (Sends-return_if _ _ _ _ refl (ensure_updated-Sends f d q)))

  ensure_found-Sends :
      (f : Found) (o : Option SplitConfig)
      → IsDerived f
      → HasRead net wallet config params start f.split_config o
      → Sends
          (EnsureTrace net wallet config params start)
          (ensure_found net wallet config params f o)
  unfolding ensure_found
  ensure_found-Sends f (some existing) d read = Sends-bind_lift _ _ _ thrown (λ same e.
      ensure_existing-Sends f existing same d
        (record { existing = existing; read = read; compared = e }))
  ensure_found-Sends f none d read = ensure_created-Sends f d read

  abbrev Ends : Result EnsureResult → List TransactionMessage → Type 0
  Ends = EnsureTrace net wallet config params start

  ensure_split_impl-SendsAt :
      SendsAt
        (EnsureTrace net wallet config params start)
        (ensure_split_impl net wallet config params)
        start
  unfolding ensure_split_impl
  ensure_split_impl-SendsAt = SendsAt-bind_lift Ends _ _ start thrown (λ sc config_derived.
      SendsAt-bind Ends _ _ start (Quiet-detect_token_program net _) thrown (λ program detected.
        SendsAt-bind_lift Ends _ _ _ thrown (λ v vault_derived.
          SendsAt-bind Ends _ _ _ (Quiet-find_split_config net _) thrown (λ existing read.
            SendsAt-bind Ends _ _ _ (Quiet-check_recipient_atas net _ _) thrown (λ missing checked.
              (Sends-return_if Ends _ _ _ refl (
                  ensure_found-Sends _ existing
                    (record {
                      config_derived = config_derived;
                      vault_derived = vault_derived;
                      detected = detected;
                      checked = checked;
                    })
                    read)).at
                _)))))

module _ {W : Type 0} (net : Network W) (wallet : Address) (config : ClientConfig)
    (params : EnsureParams) where
  -- Run in any state, `ensureSplitImpl` appends to the trace of sent messages exactly what its
  -- outcome says, with the program, the config and the missing token accounts that this run was
  -- answered: `created` where no config was found, and one message, paid by the wallet, which
  -- creates the missing token accounts that are reported and then the split at the reported
  -- addresses, derived for this wallet, mint and id, with the given recipients converted; `updated`
  -- one message with those creations and an update of the derived split, and the config that the
  -- run found has other recipients than the given ones; `no_change` nothing, and the config that
  -- the run found has equal recipients; `blocked` nothing; a failure or a throw at most one message
  -- that the wallet pays.
  pub ensure_split_impl_lem :
      (s : Store W)
      → SendsAt
          (EnsureTrace net wallet config params s)
          (ensure_split_impl net wallet config params)
          s
  ensure_split_impl_lem s = ensure_split_impl-SendsAt net wallet config params s
