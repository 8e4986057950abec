-- ===== src/Tabs/Message/Refines.antt =====
-- What the smart account program reads back from a compiled message is the instructions that were
-- compiled, each index standing for an address of the accounts.
use text.Mathlib.TextPositions.{eq_refl}
use splits.Prelude.{
  ℕ, zero, suc, ◌%◌, ◌<◌, ◌≤◌, ◌≡◌, refl, ap, true, ◌||◌, Option, some, List, [], ◌∷◌, map, length,
  get_elem?, All, arith, length-map,
}
use splits.Prelude.Map
use splits.Prelude.Map.{Map}
use splits.Outcome.{ok, map_result}
use splits.Tabs.Message.{
  Address, InnerAccount, InnerInstruction, SyncMessageResult, listed, remaining_accounts,
  index_from, byte, found_index, account_index, program_index, serialize_instruction, joined,
  compile_to_synchronous_message,
}
use splits.Tabs.Message.Decode.{Compiled, bytes_of, Fits, decode, read_instructions_lem}
use splits.Tabs.Message.Index.{keys, get-has, Points, Points-index_from, has-index_from}
use splits.Tabs.Message.Accounts.{addresses, named, listed-remaining_accounts}

-- an instruction with its addresses, where they are found
abbrev pub Resolved : Type 0
Resolved = Option Address × (List (Option Address) × List ℕ)

-- what a compiled instruction stands for
abbrev pub resolved : List Address → Compiled → Resolved
resolved ks c = (get_elem? ks c.program, (map (get_elem? ks) c.indexes, c.payload))

abbrev pub original : InnerInstruction → Resolved
original ix = (some ix.program_address, (map some (addresses ix.accounts), ix.payload))

-- the lengths fit their fields
abbrev pub Small : InnerInstruction → Type 0
Small ix = (length ix.accounts < 256) × (length ix.payload < 65536)

abbrev Found : Map ℕ → Address → Type 0
Found m k = (j : ℕ) × (Map.get k m ≡ some j)

abbrev FoundAll : Map ℕ → InnerInstruction → Type 0
FoundAll m ix = Found m ix.program_address × All (λ acc. Found m acc.address) ix.accounts

account_indexes_lem :
    (m : Map ℕ) (accs : List InnerAccount)
    → All (λ acc. Found m acc.address) accs
    → (is : List ℕ) × ((map_result (account_index m) accs ≡ ok is)
        × ((length is ≡ length accs)
            × ((ks : List Address)
                → Points ks m
                → (map (get_elem? ks) is ≡ map some (addresses accs))
                  × All (λ i. (k : Address) × (get_elem? ks i ≡ some k)) is)))
unfolding account_index found_index map_result
account_indexes_lem m [] h = ([], (refl, (refl, λ ks p. (refl, tt))))
account_indexes_lem m (acc ∷ accs) ((j, e), h) =
    let (is, (es, (n, r))) = account_indexes_lem m accs h in
    (
      j ∷ is,
      (
        rw (e, es) refl,
        (
          ap suc n,
          λ ks p.
              let here = p acc.address j e in
              let (rest, low) = r ks p in (cc, ((acc.address, here), low)),
        ),
      ),
    )

get_elem?-lt : (ks : List Address) (i : ℕ) (k : Address) → get_elem? ks i ≡ some k → i < length ks
get_elem?-lt [] i k h = cc
get_elem?-lt (x ∷ ks) zero k h = omega arith
get_elem?-lt (x ∷ ks) (suc i) k h = omega (arith, get_elem?-lt ks i k h)

All-lt :
    (ks : List Address) (is : List ℕ)
    → length ks ≤ 256
    → All (λ i. (k : Address) × (get_elem? ks i ≡ some k)) is
    → All (λ i. i < 256) is
All-lt ks [] n h = tt
All-lt ks (i ∷ is) n ((k, e), h) = (omega (arith, get_elem?-lt ks i k e), All-lt ks is n h)

serialize_instruction_lem :
    (ks : List Address) (m : Map ℕ) (ix : InnerInstruction)
    → Points ks m
    → FoundAll m ix
    → (c : Compiled) × ((serialize_instruction m ix ≡ ok (bytes_of c))
        × ((resolved ks c ≡ original ix) × (length ks ≤ 256 → Small ix → Fits c)))
unfolding serialize_instruction program_index found_index
serialize_instruction_lem ks m ix p ((j, e), h) =
    let (is, (es, (n, r))) = account_indexes_lem m ix.accounts h in
    let (same, found) = r ks p in
    let here = p ix.program_address j e in
    (
      record { program = j; indexes = is; payload = ix.payload },
      (
        rw (e, es) refl,
        (
          cc,
          λ small (a, l). (
            omega (arith, get_elem?-lt ks j ix.program_address here),
            omega arith,
            l,
            All-lt ks is small found,
          ),
        ),
      ),
    )

serialize-All :
    (ks : List Address) (m : Map ℕ) (ixs : List InnerInstruction)
    → Points ks m
    → All (FoundAll m) ixs
    → (cs : List Compiled) × ((map_result (serialize_instruction m) ixs ≡ ok (map bytes_of cs))
        × ((map (resolved ks) cs ≡ map original ixs)
            × ((length cs ≡ length ixs) × (length ks ≤ 256 → All Small ixs → All Fits cs))))
unfolding map_result
serialize-All ks m [] p h = ([], (refl, (refl, (refl, λ small s. tt))))
serialize-All ks m (ix ∷ ixs) p (h, hs) =
    let (c, (e, (r, f))) = serialize_instruction_lem ks m ix p h in
    let (cs, (es, (rs, (n, fs)))) = serialize-All ks m ixs p hs in
    (c ∷ cs, (rw (e, es) refl, (cc, (ap suc n, λ small s. (f small s.0, fs small s.1)))))

-- what holds of every named address holds at each place
module _ (P : Address → Type 0) where
  All-listed :
      (accs : List InnerAccount)
      → ((k : Address) → listed (addresses accs) k ≡ true → P k)
      → All (λ acc. P acc.address) accs
  unfolding listed
  All-listed [] h = tt
  All-listed (acc ∷ accs) h = (
    h acc.address (rw (eq_refl acc.address) refl),
    All-listed accs (λ k l. h k (ground (arith, l))),
  )

  All-named :
      (ixs : List InnerInstruction)
      → ((k : Address) → named ixs k ≡ true → P k)
      → All (λ ix. P ix.program_address × All (λ acc. P acc.address) ix.accounts) ixs
  All-named [] h = tt
  All-named (ix ∷ ixs) h = (
    (
      h ix.program_address (rw (eq_refl ix.program_address) refl),
      All-listed ix.accounts (λ k l. h k (ground (arith, l))),
    ),
    All-named ixs (λ k l. h k (ground (arith, l))),
  )

abbrev index_of : Address → List Address → List InnerInstruction → Map ℕ
index_of vault members ixs = index_from 0 (remaining_accounts vault members ixs) []

FoundAll-index :
    (vault : Address) (members : List Address) (ixs : List InnerInstruction)
    → All (FoundAll (index_of vault members ixs)) ixs
unfolding Map.has
FoundAll-index vault members ixs =
    let accs = remaining_accounts vault members ixs in
    All-named (Found (index_of vault members ixs)) ixs (λ k l. get-has k (index_from 0 accs []) (
      ground (arith, l, has-index_from k 0 accs [], listed-remaining_accounts k vault members ixs)))

Points-index :
    (vault : Address) (members : List Address) (ixs : List InnerInstruction)
    → Points (keys (remaining_accounts vault members ixs)) (index_of vault members ixs)
unfolding Map.get
Points-index vault members ixs =
    let accs = remaining_accounts vault members ixs in
    Points-index_from (keys accs) 0 accs [] refl (λ k j h. cc)

-- For fewer than 256 instructions, each with fewer than 256 accounts and fewer than 65536 bytes of
-- data, whose accounts with the members are at most 256, `compileToSynchronousMessage` returns, and
-- the decoder of the format reads its bytes as one compiled instruction for each given one, in
-- their order: the addresses at the compiled indices, in the accounts of the result, are the given
-- program and the given accounts in their order, and the data is the given data.
pub compile_to_synchronous_message_lem :
    (vault : Address) (members : List Address) (ixs : List InnerInstruction)
    → length ixs < 256
    → All Small ixs
    → length (remaining_accounts vault members ixs) ≤ 256
    → (r : SyncMessageResult) × ((cs : List Compiled) × ((compile_to_synchronous_message vault
              members ixs
            ≡ ok r)
          × ((decode r.instructions ≡ some cs)
              × (map (resolved (keys r.accounts)) cs ≡ map original ixs))))
unfolding compile_to_synchronous_message decode
compile_to_synchronous_message_lem vault members ixs few small low =
    let accs = remaining_accounts vault members ixs in
    let (cs, (e, (r, (n, f)))) =
      serialize-All (keys accs) (index_of vault members ixs) ixs (Points-index vault members ixs)
        (FoundAll-index vault members ixs) in
    let fit = f (rw (length-map accs (λ a. a.pubkey)) low) small in
    let count : length ixs % 256 ≡ length cs = omega arith in
    (
      record { instructions = byte (length ixs) ∷ joined (map bytes_of cs); accounts = accs },
      (cs, (rw e refl, (rw count (read_instructions_lem cs fit), r))),
    )

-- `compileToSynchronousMessage` never throws. The addresses of the accounts that it returns are the
-- members and those that some instruction names.
pub compile-returns :
    (vault : Address) (members : List Address) (ixs : List InnerInstruction)
    → (r : SyncMessageResult) × ((compile_to_synchronous_message vault members ixs ≡ ok r)
        × ((k : Address) → listed (keys r.accounts) k ≡ (named ixs k || listed members k)))
unfolding compile_to_synchronous_message
compile-returns vault members ixs =
    let accs = remaining_accounts vault members ixs in
    let (cs, (e, rest)) =
      serialize-All (keys accs) (index_of vault members ixs) ixs (Points-index vault members ixs)
        (FoundAll-index vault members ixs) in
    (
      record { instructions = byte (length ixs) ∷ joined (map bytes_of cs); accounts = accs },
      (rw e refl, λ k. listed-remaining_accounts k vault members ixs),
    )
