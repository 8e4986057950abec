-- ===== src/Solana/Tests/Inputs.antt =====
-- The inputs of the tests: a node that answers with fixed values.
use splits.Prelude.{false, ◌*◌, Option, none, some, List, [], ◌∷◌, map, replicate}
use splits.Outcome.{ok}
use splits.Solana.Types.{natural, Recipient, OnChainRecipient, SplitConfig}
use splits.Solana.Network.{Network, SplitConfigData}
use splits.Solana.Action.{Store}
use splits.Solana.Client.Results.{ClientConfig, EnsureParams, UpdateParams}

abbrev pub alice : Recipient
alice = record { address = "alice"; percentage_bps = none; share = some (natural 60) }

abbrev pub bob : Recipient
bob = record { address = "bob"; percentage_bps = some (natural 3960); share = none }

abbrev pub recipients : List Recipient
recipients = alice ∷ bob ∷ []

abbrev pub on_chain_recipients : List OnChainRecipient
on_chain_recipients =
    record { address = "alice"; percentage_bps = 9900 }
    ∷ record { address = ""; percentage_bps = 0 }
    ∷ []

abbrev pub split_data : SplitConfigData
split_data = record {
  version = 1;
  authority = "owner";
  mint = "mint";
  vault = "vault";
  unique_id = "id";
  bump = 255;
  recipient_count = 1;
  recipients = on_chain_recipients;
  unclaimed_amounts = [];
  protocol_unclaimed = 7;
  last_activity = 0;
  rent_payer = "payer";
}

-- the split config, if any, that the node has; no token account exists
abbrev pub node : Option SplitConfigData → Network Unit
node config = record {
  get_program_derived_address = λ program seeds. ok "derived";
  decode_address = λ bytes. "decoded";
  fetch_maybe_split_config = λ a w. (ok config, w);
  fetch_protocol_config = λ a w. (
    ok (record {
      authority = "admin";
      pending_authority = "admin";
      fee_wallet = "fees";
      bump = 254;
    }),
    w,
  );
  get_account_info =
      λ a w. (ok (some (record { owner = "token program"; bytes = replicate 72 0 })), w);
  get_multiple_accounts = λ addresses w. (ok (map (λ _. none) addresses), w);
  get_minimum_balance_for_rent_exemption = λ size w. (ok (size * 7), w);
  get_latest_blockhash = λ w. (ok (record { blockhash = "hash"; last_valid_block_height = 9 }), w);
  random_address = λ w. ("random", w);
  sign_and_send = λ message options w. (ok "signature", w);
  is_aborted = λ w. false;
}

abbrev pub start : Store Unit
start = record {
  world = tt;
  split_cache = [];
  cached_protocol_config = none;
  mint_program_cache = [];
  sent = [];
}

abbrev pub settings : ClientConfig
settings = record { commitment = none; compute_unit_price = some 5 }

abbrev pub ensure_params : EnsureParams
ensure_params = record {
  recipients = recipients;
  mint = "mint";
  unique_id = "id";
  payer = none;
  create_missing_atas = none;
}

abbrev pub update_params : UpdateParams
update_params = record { recipients = recipients; create_missing_atas = none }

abbrev pub bob_split : SplitConfig
bob_split = record {
  address = "split";
  version = 1;
  authority = "owner";
  mint = "mint";
  vault = "vault";
  unique_id = "id";
  bump = 255;
  recipients = record { address = "alice"; percentage_bps = 9900; share = 100 } ∷ [];
  unclaimed_amounts = [];
  protocol_unclaimed = 7;
  last_activity = 0;
  rent_payer = "payer";
}
