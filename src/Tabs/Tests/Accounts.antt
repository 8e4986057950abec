-- ===== src/Tabs/Tests/Accounts.antt =====
-- Tests and examples of API keys and of the search of smart accounts.
use splits.Prelude.{◌≡◌, ◌↔◌, refl, ℕ, false, none, some, List, [], ◌∷◌, arith}
use splits.Prelude.Integers.{pos}
use splits.Outcome.{ok}
use splits.Tabs.Action.{Store}
use splits.Tabs.ApiKey.{EncodeTabsApiKeyInput, KeyCodec, encode_tabs_api_key, decode_tabs_api_key}
use splits.Tabs.ApiKey.Roundtrip.{json_of, payload_of, decode_tabs_api_key-encode_tabs_api_key}
use splits.Tabs.Discovery.{Node, fetch_smart_account_state_by_owner, has_smart_account}
use splits.Tabs.Discovery.Agrees.{has_smart_account-fetch}

abbrev key_input : EncodeTabsApiKeyInput
key_input = record {
  settings_pda = "settings";
  spending_limit_pda = "limit";
  per_tx_max = pos 10000000;
}

-- base64 with all that the encoder replaces
key_codec : KeyCodec
key_codec = record {
  encode = λ payload. ok (65 ∷ 43 ∷ 47 ∷ 61 ∷ 61 ∷ []);
  decode = λ text. ok (json_of key_input);
}

encoded_key :
    encode_tabs_api_key key_codec key_input ≡ ok (116 ∷ 97 ∷ 98 ∷ 115 ∷ 95 ∷ 65 ∷ 45 ∷ 95 ∷ [])
unfolding key_codec encode_tabs_api_key
encoded_key = refl

decode_tabs_api_key-encode_tabs_api_key_example :
    (key : List ℕ) × (encode_tabs_api_key key_codec key_input ≡ ok key)
    × (decode_tabs_api_key key_codec key ≡ some (payload_of key_input))
unfolding key_codec
decode_tabs_api_key-encode_tabs_api_key_example =
    decode_tabs_api_key-encode_tabs_api_key key_codec key_input (65 ∷ 43 ∷ 47 ∷ 61 ∷ 61 ∷ []) refl
      refl
      (
        (omega arith, omega arith),
        (
          (omega arith, omega arith),
          (
            (omega arith, omega arith),
            ((omega arith, omega arith), ((omega arith, omega arith), tt)),
          ),
        ),
      )

-- a node with one smart account
node : Node ℕ
node = record {
  get_program_derived_address = λ program seeds. ok "derived";
  encode_address = λ address. ok [];
  base58_text = λ bytes. "";
  get_program_accounts = λ program sliced filters w. (ok ("settings" ∷ []), w);
  fetch_maybe_spending_limit = λ address w. (ok none, w);
  get_account_info = λ address w. (ok none, w);
}

abbrev store : Store ℕ Unit
store = record { world = 0; trace = [] }

found_account :
    (fetch_smart_account_state_by_owner node "owner" none (some "mint") store).0
    ≡ ok (
        some (record {
          address = "settings";
          vault_address = "derived";
          vault_ata_address = "derived";
          balance = 0;
          spending_limit = none;
        }))
unfolding node fetch_smart_account_state_by_owner splits.Tabs.Action.◌>>=◌
found_account = refl

has_smart_account-fetch_example :
    ((has_smart_account node "owner" store).0 ≡ ok false)
    ↔ ((fetch_smart_account_state_by_owner node "owner" none (some "mint") store).0 ≡ ok none)
unfolding node
has_smart_account-fetch_example =
    has_smart_account-fetch node "owner" none (some "mint") store (λ program filters w. refl)
