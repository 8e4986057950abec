-- ===== src/Solana/Instructions.antt =====
-- The instruction builders, packages/splits-sdk/src/instructions.ts.
pub mod Silence
pub mod Parts
pub mod Shape
pub mod Changes
pub mod Execution
use mathlib.Core.Option
use splits.Prelude.{String, Option, none, some, List, [], ◌∷◌, ◌++◌, map}
use splits.Outcome.{Result, ok, throw, ◌>>=◌ as ◌>>=ʳ◌, map_result}
use splits.Solana.Types.{
  Address, Recipient, OnChainRecipient, SplitConfig, SplitRecipient, ProtocolConfig, Role, readonly,
  writable, signer, writable_signer, AccountMeta, Instruction, create_split_config, execute_split,
  update_split_config, close_split_config, program_id, usdc_mint, token_program_address,
  associated_token_program_address, system_program_address,
}
use splits.Solana.Recipients.{to_percentage_bps}
use splits.Solana.Network.{Network}
use splits.Solana.Action.{Action, pure, raise, lift, attempt, outside, gets, ◌>>=◌}
use splits.Solana.Derive.{derive_split_config, derive_vault, derive_ata}
use splits.Solana.Reads.{get_split_config, get_protocol_config}
use splits.Solana.Detect.{detect_token_program}

unfoldable pub to_on_chain_recipient : Recipient → Result OnChainRecipient
to_on_chain_recipient r =
    ◌>>=ʳ◌ (to_percentage_bps r) (λ bps. ok (record { address = r.address; percentage_bps = bps }))

unfoldable pub to_on_chain_recipients : List Recipient → Result (List OnChainRecipient)
unfolding to_on_chain_recipient map_result
to_on_chain_recipients recipients = map_result to_on_chain_recipient recipients

abbrev pub account : Role → Address → AccountMeta
account role address = record { address = address; role = role }

pub record CreateSplitConfigResult : Type 0 where
  pub instruction : Instruction
  pub split_config : Address
  pub vault : Address

pub data ExecuteSplitResult : Type 0 where
  success : Instruction → ExecuteSplitResult
  not_found not_a_split : Address → ExecuteSplitResult

-- The parameters of `createSplitConfig`, before their defaults.
pub record CreateParams : Type 0 where
  pub authority : Address
  pub recipients : List Recipient
  pub mint : Option Address
  pub unique_id : Option Address
  pub token_program : Option Address
  pub payer : Option Address

unfoldable pub execute_instruction :
    SplitConfig → ProtocolConfig → Address → Address → List Address → Address → Instruction
execute_instruction config protocol executor token_program recipient_atas protocol_ata = record {
  program_address = program_id;
  accounts =
      (account writable config.address
        ∷ account writable config.vault
        ∷ account readonly config.mint
        ∷ account readonly protocol.address
        ∷ account readonly executor
        ∷ account readonly token_program
        ∷ [])
      ++ (map (account writable) recipient_atas ++ (account writable protocol_ata ∷ []));
  payload = execute_split;
}

unfoldable pub update_instruction :
    SplitConfig → Address → Address → List OnChainRecipient → List Address → Instruction
update_instruction config authority token_program recipients recipient_atas = record {
  program_address = program_id;
  accounts =
      (account writable config.address
        ∷ account readonly config.vault
        ∷ account readonly config.mint
        ∷ account signer authority
        ∷ account readonly token_program
        ∷ [])
      ++ map (account readonly) recipient_atas;
  payload = update_split_config recipients;
}

unfoldable pub close_instruction : SplitConfig → Address → Address → Address → Instruction
close_instruction config authority rent_receiver token_program = record {
  program_address = program_id;
  accounts =
      account writable config.address
      ∷ account writable config.vault
      ∷ account signer authority
      ∷ account writable rent_receiver
      ∷ account readonly token_program
      ∷ [];
  payload = close_split_config;
}

unfoldable pub create_instruction :
    Address
    → Address
    → Address
    → Address
    → Address
    → Address
    → Address
    → List OnChainRecipient
    → List Address
    → Instruction
create_instruction split_config unique_id authority payer mint vault token_program recipients
      recipient_atas =
    record {
      program_address = program_id;
      accounts =
          (account writable split_config
            ∷ account readonly unique_id
            ∷ account signer authority
            ∷ account writable_signer payer
            ∷ account readonly mint
            ∷ account writable vault
            ∷ account readonly token_program
            ∷ account readonly associated_token_program_address
            ∷ account readonly system_program_address
            ∷ [])
          ++ map (account readonly) recipient_atas;
      payload = create_split_config mint recipients;
    }

-- `input.tokenProgram ?? (await detectTokenProgram(…))`
module _ {W : Type 0} (net : Network W) where
  unfoldable pub given_or_detected : Option Address → Address → Action W Address
  given_or_detected (some program) mint = pure program
  given_or_detected none mint = detect_token_program net mint

  unfoldable pub given_or_generated : Option Address → Action W Address
  given_or_generated (some id) = pure id
  given_or_generated none = outside (λ w. let (a, w') = net.random_address w in (ok a, w'))

  unfoldable pub recipient_atas : List Address → Address → Address → Result (List Address)
  unfolding map_result
  recipient_atas owners mint token_program =
      map_result (λ owner. derive_ata net owner mint token_program) owners

  unfoldable pub create_split_config_instruction : CreateParams → Action W CreateSplitConfigResult
  unfolding create_instruction to_on_chain_recipients given_or_generated recipient_atas
  create_split_config_instruction params = do
    let mint = Option.get_or params.mint usdc_mint
    let token_program = Option.get_or params.token_program token_program_address
    let payer = Option.get_or params.payer params.authority
    unique_id ← given_or_generated params.unique_id
    recipients ← lift (to_on_chain_recipients params.recipients)
    split_config ← lift (derive_split_config net params.authority mint unique_id)
    vault ← lift (derive_vault net split_config mint token_program)
    atas ← lift (recipient_atas (map (λ r. r.address) recipients) mint token_program)
    pure (record {
      instruction =
          create_instruction split_config unique_id params.authority payer mint vault token_program
            recipients atas;
      split_config = split_config;
      vault = vault;
    })

  -- after the config was fetched
  unfoldable pub execute_fetched :
      Address → Address → Option Address → Result SplitConfig → Action W ExecuteSplitResult
  unfolding execute_instruction given_or_detected recipient_atas
  execute_fetched split_config executor program (throw e) = pure (not_found split_config)
  execute_fetched split_config executor program (ok config) = do
    token_program ← given_or_detected program config.mint
    protocol ← get_protocol_config net
    atas ← lift (recipient_atas (map (λ r. r.address) config.recipients) config.mint token_program)
    protocol_ata ← lift (derive_ata net protocol.fee_wallet config.mint token_program)
    pure (success (execute_instruction config protocol executor token_program atas protocol_ata))

  unfoldable pub execute_split_instruction :
      Address → Address → Option Address → Action W ExecuteSplitResult
  unfolding execute_fetched
  execute_split_instruction split_config executor program = do
    config ← attempt (get_split_config net split_config)
    execute_fetched split_config executor program config

  unfoldable pub update_split_config_instruction :
      Address → Address → List Recipient → Option Address → Action W Instruction
  unfolding update_instruction given_or_detected to_on_chain_recipients recipient_atas
  update_split_config_instruction split_config authority recipients program = do
    config ← get_split_config net split_config
    token_program ← given_or_detected program config.mint
    on_chain ← lift (to_on_chain_recipients recipients)
    atas ← lift (recipient_atas (map (λ r. r.address) on_chain) config.mint token_program)
    pure (update_instruction config authority token_program on_chain atas)

  unfoldable pub close_split_config_instruction :
      Address → Address → Option Address → Option Address → Action W Instruction
  unfolding close_instruction given_or_detected
  close_split_config_instruction split_config authority rent_receiver program = do
    config ← get_split_config net split_config
    token_program ← given_or_detected program config.mint
    pure (close_instruction config authority (Option.get_or rent_receiver authority) token_program)
