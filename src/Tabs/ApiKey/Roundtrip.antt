-- ===== src/Tabs/ApiKey/Roundtrip.antt =====
-- An API key that was encoded decodes to what it was made of.
use splits.Prelude.{
  ◌≡◌, ◌≢◌, refl, ap, ◌∙◌, inl, inr, ℕ, some, List, [], ◌∷◌, ◌++◌, map, ◌==◌, All, arith,
  Bool-cases,
}
use splits.Prelude.Integers.{ℤ, show_int}
use splits.Prelude.Integers.Shown.{read_int-show_int}
use splits.Outcome.{ok, big_int}
use splits.Tabs.ApiKey.{
  TabsApiKeyPayload, EncodeTabsApiKeyInput, ApiKeyJson, KeyCodec, api_key_prefix, replaced,
  strip_padding, parse_payload, decode_tabs_api_key, encode_tabs_api_key, padded_end,
}

-- what stands for the input in JSON
abbrev pub json_of : EncodeTabsApiKeyInput → ApiKeyJson
json_of input = record {
  settings_pda = input.settings_pda;
  spending_limit_pda = input.spending_limit_pda;
  per_tx_max = show_int input.per_tx_max;
  version = 1;
}

abbrev pub payload_of : EncodeTabsApiKeyInput → TabsApiKeyPayload
payload_of input = record {
  settings_pda = input.settings_pda;
  spending_limit_pda = input.spending_limit_pda;
  per_tx_max = input.per_tx_max;
  version = 1;
}

-- the alphabet of base64 has neither "-" nor "_"
abbrev pub Standard : ℕ → Type 0
Standard c = (c ≢ 45) × (c ≢ 95)

-- the two replacements of the encoder, and those of the decoder
abbrev to_url : List ℕ → List ℕ
to_url cs = map (replaced 47 95) (map (replaced 43 45) cs)

abbrev from_url : List ℕ → List ℕ
from_url cs = map (replaced 95 47) (map (replaced 45 43) cs)

padded_end-to_url :
    (c : ℕ) (cs : List ℕ)
    → padded_end (replaced 47 95 (replaced 43 45 c)) (to_url cs) ≡ to_url (padded_end c cs)
unfolding padded_end replaced
padded_end-to_url c [] = ground arith
padded_end-to_url c (d ∷ ds) = refl

All-padded_end :
    (c : ℕ) (cs : List ℕ) → Standard c → All Standard cs → All Standard (padded_end c cs)
unfolding padded_end
All-padded_end c [] h i = elim (Bool-cases (c == 61)) [ inl e ↦ rw e tt | inr e ↦ rw e (h, tt) ]
All-padded_end c (d ∷ ds) h i = (h, i)

strip_padding-to_url : (cs : List ℕ) → strip_padding (to_url cs) ≡ to_url (strip_padding cs)
unfolding strip_padding
strip_padding-to_url [] = refl
strip_padding-to_url (c ∷ cs) =
    ap (padded_end (replaced 47 95 (replaced 43 45 c))) (strip_padding-to_url cs)
    ∙ padded_end-to_url c (strip_padding cs)

from_url-to_url : (cs : List ℕ) → All Standard cs → from_url (to_url cs) ≡ cs
unfolding replaced
from_url-to_url [] h = refl
from_url-to_url (c ∷ cs) h = ground (arith, h.0, from_url-to_url cs h.1)

All-strip_padding : (cs : List ℕ) → All Standard cs → All Standard (strip_padding cs)
unfolding strip_padding
All-strip_padding [] h = tt
All-strip_padding (c ∷ cs) h = All-padded_end c (strip_padding cs) h.0 (All-strip_padding cs h.1)

big_int-show_int : (z : ℤ) → big_int (show_int z) ≡ ok z
unfolding big_int
big_int-show_int z = rw (read_int-show_int z) refl

-- Where the JSON of an input has a base64 text without the characters - and _, and that text
-- without its padding is read back as the same JSON, `encodeTabsApiKey` returns a key, and
-- `decodeTabsApiKey` of the key gives the two addresses and the maximum of the input, any integer,
-- with version 1.
pub decode_tabs_api_key-encode_tabs_api_key :
    (codec : KeyCodec) (input : EncodeTabsApiKeyInput) (base64 : List ℕ)
    → codec.encode (json_of input) ≡ ok base64
    → codec.decode (strip_padding base64) ≡ ok (json_of input)
    → All Standard base64
    → (key : List ℕ) × (encode_tabs_api_key codec input ≡ ok key)
      × (decode_tabs_api_key codec key ≡ some (payload_of input))
unfolding encode_tabs_api_key decode_tabs_api_key parse_payload
decode_tabs_api_key-encode_tabs_api_key codec input base64 encoded decoded standard =
    let same : from_url (strip_padding (to_url base64)) ≡ strip_padding base64 =
      ap from_url (strip_padding-to_url base64)
      ∙ from_url-to_url (strip_padding base64) (All-strip_padding base64 standard) in
    (
      api_key_prefix ++ strip_padding (to_url base64),
      rw encoded refl,
      rw (same, decoded, big_int-show_int input.per_tx_max) refl,
    )
