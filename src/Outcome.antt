-- ===== src/Outcome.antt =====
-- packages/splits-sdk/src/errors.ts and client/wallet-errors.ts: what the SDK throws, and the
-- result of a computation that may throw.
use splits.Prelude.{◌≡◌, refl, ◌⊎◌, inl, inr, String, List, [], ◌∷◌, map}
use splits.Prelude.{Option, none, some}
use splits.Prelude.Text.{◌<>◌, codes}
use splits.Prelude.Integers.{ℤ, read_int}

-- `SplitsErrorCode`
pub data SplitsErrorCode : Type 0 where
  vault_not_found split_not_found protocol_not_initialized invalid_recipients : SplitsErrorCode
  invalid_token_account mint_not_found recipient_atas_missing : SplitsErrorCode

-- The classes that extend `SplitsError`, with their public fields.
pub data SplitsError : Type 0 where
  vault_not_found_error : String → SplitsError
  split_config_not_found_error : String → SplitsError
  protocol_not_initialized_error : SplitsError
  invalid_recipients_error : String → SplitsError
  invalid_token_account_error : String → SplitsError
  mint_not_found_error : String → SplitsError
  recipient_atas_missing_error : List (String × String) → SplitsError

-- `SplitsError.code`
unfoldable pub code : SplitsError → SplitsErrorCode
code (vault_not_found_error _) = vault_not_found
code (split_config_not_found_error _) = split_not_found
code protocol_not_initialized_error = protocol_not_initialized
code (invalid_recipients_error _) = invalid_recipients
code (invalid_token_account_error _) = invalid_token_account
code (mint_not_found_error _) = mint_not_found
code (recipient_atas_missing_error _) = recipient_atas_missing

-- `texts.join(", ")`
unfoldable pub join : List String → String
unfolding ◌<>◌
join [] = ""
join (x ∷ []) = x
join (x ∷ y ∷ ys) = x <> ", " <> join (y ∷ ys)

-- the `message` that each constructor passes to `Error`
unfoldable pub splits_error_message : SplitsError → String
unfolding join ◌<>◌
splits_error_message (vault_not_found_error vault) = "Vault not found: " <> vault
splits_error_message (split_config_not_found_error address) = "SplitConfig not found: " <> address
splits_error_message protocol_not_initialized_error =
    "Protocol config not found. Has the program been initialized?"
splits_error_message (invalid_recipients_error message) = message
splits_error_message (invalid_token_account_error address) =
    "Invalid token account data: " <> address
splits_error_message (mint_not_found_error mint) = "Mint not found: " <> mint
splits_error_message (recipient_atas_missing_error missing) =
    "Recipient ATAs missing: " <> join (map (λ m. m.0) missing)

-- A thrown value: an error of the SDK, one of the two wallet errors, another `Error` with its
-- message, or a value that is no `Error`.
pub data Thrown : Type 0 where
  splits_error : SplitsError → Thrown
  wallet_rejected_error wallet_disconnected_error : Thrown
  error : String → Thrown
  not_an_error : Thrown

pub data Result {ℓ} (A : Type ℓ) : Type ℓ where
  ok : A → Result A
  throw : Thrown → Result A

infixl 5 ◌>>=◌
abbrev pub ◌>>=◌ {ℓ κ} : {A : Type ℓ} {B : Type κ} → Result A → (A → Result B) → Result B
ok a >>= f = f a
throw e >>= f = throw e

-- the bind, under a name, for files with the bind of actions
abbrev pub bind_result {ℓ κ} : {A : Type ℓ} {B : Type κ} → Result A → (A → Result B) → Result B
bind_result r f = r >>= f

-- To split on a computed outcome and keep the equation.
pub Result-cases {ℓ} :
    {A : Type ℓ} (r : Result A) → ((e : Thrown) × (r ≡ throw e)) ⊎ ((a : A) × (r ≡ ok a))
Result-cases (ok a) = inr (a, refl)
Result-cases (throw e) = inl (e, refl)

-- What a bind that returns went through.
module _ {ℓ κ} {A : Type ℓ} {B : Type κ} where
  pub >>=-eq-ok :
      (first : Result A) (rest : A → Result B) {y : B}
      → (first >>= rest) ≡ ok y
      → (x : A) × (first ≡ ok x) × (rest x ≡ ok y)
  >>=-eq-ok (throw e) rest returned = cc
  >>=-eq-ok (ok x) rest returned = (x, refl, returned)

-- `xs.map(f)` where `f` may throw: the first throw ends the map.
module _ {ℓ} {A B : Type ℓ} where
  unfoldable pub map_result : (A → Result B) → List A → Result (List B)
  map_result f [] = ok []
  map_result f (x ∷ xs) = do y ← f x; ys ← map_result f xs; ok (y ∷ ys)

  pub map_result-cons :
      (f : A → Result B) (x : A) (xs : List A) {ys : List B}
      → map_result f (x ∷ xs) ≡ ok ys
      → (z : B) × (zs : List B) × (f x ≡ ok z) × (map_result f xs ≡ ok zs) × (ys ≡ z ∷ zs)
  unfolding map_result
  map_result-cons f x xs h =
      let (z, ez, h') = >>=-eq-ok (f x) (λ y. map_result f xs >>= λ ys. ok (y ∷ ys)) h in
      let (zs, es, h'') = >>=-eq-ok (map_result f xs) (λ ys. ok (z ∷ ys)) h' in (z, zs, ez, es, cc)

-- `BigInt(text)`: a `SyntaxError` where the text is no integer
unfoldable pub to_big_int : String → Option ℤ → Result ℤ
unfolding ◌<>◌
to_big_int text none = throw (error ("Cannot convert " <> text <> " to a BigInt"))
to_big_int text (some n) = ok n

unfoldable pub big_int : String → Result ℤ
unfolding to_big_int read_int codes
big_int text = to_big_int text (read_int (codes text))
