-- ===== src/Tabs/ApiKey.antt =====
-- encodeTabsApiKey and decodeTabsApiKey of packages/tabs-sdk/src/helpers.ts. The JSON of a payload
-- and its base64 are parameters, on texts as lists of their codes.
pub mod Roundtrip
use splits.Prelude.{
  ℕ, String, Option, none, some, List, [], ◌∷◌, ◌++◌, map, drop, ◌==◌, if◌then◌else◌,
}
use splits.Prelude.Text.{codes, has_prefix}
use splits.Prelude.Integers.{ℤ, show_int}
use splits.Outcome.{Result, ok, throw, ◌>>=◌, big_int}

pub record TabsApiKeyPayload : Type 0 where
  pub settings_pda : String
  pub spending_limit_pda : String
  pub per_tx_max : ℤ
  pub version : ℕ

pub record EncodeTabsApiKeyInput : Type 0 where
  pub settings_pda : String
  pub spending_limit_pda : String
  pub per_tx_max : ℤ

-- the object that is written as JSON
pub record ApiKeyJson : Type 0 where
  pub settings_pda : String
  pub spending_limit_pda : String
  pub per_tx_max : String
  pub version : ℕ

pub record KeyCodec : Type 0 where
  -- `btoa(JSON.stringify(payload))`
  pub encode : ApiKeyJson → Result (List ℕ)
  -- `JSON.parse(atob(base64))`
  pub decode : List ℕ → Result ApiKeyJson

abbrev pub api_key_prefix : List ℕ
api_key_prefix = codes "tabs_"

-- `.replace(/a/g, b)` on one character
unfoldable pub replaced : ℕ → ℕ → ℕ → ℕ
replaced a b c = if c == a then b else c

-- a character before a text without padding at its end
unfoldable pub padded_end : ℕ → List ℕ → List ℕ
padded_end c [] = if c == 61 then [] else c ∷ []
padded_end c (d ∷ ds) = c ∷ d ∷ ds

-- `.replace(/=+$/, "")`
unfoldable pub strip_padding : List ℕ → List ℕ
unfolding padded_end
strip_padding [] = []
strip_padding (c ∷ cs) = padded_end c (strip_padding cs)

-- a computation in a `try` whose `catch` returns null
unfoldable pub or_null : {A : Type 0} → Result A → Option A
or_null (ok a) = some a
or_null (throw e) = none

module _ (codec : KeyCodec) where
  unfoldable pub parse_payload : List ℕ → Result TabsApiKeyPayload
  unfolding replaced big_int
  parse_payload text = do
    parsed ← codec.decode (map (replaced 95 47) (map (replaced 45 43) text))
    per_tx_max ← big_int parsed.per_tx_max
    ok (record {
      settings_pda = parsed.settings_pda;
      spending_limit_pda = parsed.spending_limit_pda;
      per_tx_max = per_tx_max;
      version = parsed.version;
    })

  unfoldable pub decode_tabs_api_key : List ℕ → Option TabsApiKeyPayload
  unfolding parse_payload or_null has_prefix codes
  decode_tabs_api_key key =
      if has_prefix api_key_prefix key then or_null (parse_payload (drop 5 key)) else none

  unfoldable pub encode_tabs_api_key : EncodeTabsApiKeyInput → Result (List ℕ)
  unfolding strip_padding replaced show_int codes
  encode_tabs_api_key input = do
    base64 ← codec.encode (record {
      settings_pda = input.settings_pda;
      spending_limit_pda = input.spending_limit_pda;
      per_tx_max = show_int input.per_tx_max;
      version = 1;
    })
    ok (api_key_prefix ++ strip_padding (map (replaced 47 95) (map (replaced 43 45) base64)))
