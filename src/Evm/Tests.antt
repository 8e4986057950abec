-- ===== src/Evm/Tests.antt =====
-- The theorems on the EVM SDK at concrete inputs: clients that answer with fixed values.
use splits.Prelude.{◌≡◌, refl, true, none, some, [], ◌∷◌}
use splits.Outcome.{ok}
use splits.Evm.Types.{Clients, EvmEnsureParams, created, executed}
use splits.Evm.Action.{Store, WritesAt}
use splits.Evm.Ensure.{ensure_split}
use splits.Evm.Ensure.Trace.{EnsureTrace, ensure_split_lem}
use splits.Evm.Execute.{execute_split_impl}
use splits.Evm.Execute.Trace.{ExecuteTrace, execute_split_impl_lem}

abbrev clients : Clients Unit
clients = record {
  is_address = λ text. true;
  account = some "0xowner";
  get_chain_id = λ w. (ok 8453, w);
  predict_split_address = λ factory authority token id recipients w. (ok "0xsplit", w);
  get_bytecode = λ a w. (ok none, w);
  is_cascade_split_config = λ a w. (ok true, w);
  get_balance = λ a w. (ok 1000, w);
  has_pending_funds = λ a w. (ok true, w);
  write_contract = λ call w. (ok "0xhash", w);
  wait_for_transaction_receipt = λ hash w. (ok true, w);
}

abbrev start : Store Unit
start = record { world = tt; written = [] }

abbrev params : EvmEnsureParams
params = record {
  authority = none;
  token = none;
  unique_id = "0xid";
  recipients =
      record { address = "0xalice"; share = some 60; percentage_bps = none }
      ∷ record { address = "0xbob"; share = none; percentage_bps = some 3960 }
      ∷ [];
}

creation_test :
    (ensure_split clients "" "0xfactory" params start).0 ≡ ok (created "0xsplit" "0xhash")
unfolding ensure_split splits.Evm.Action.◌>>=◌ splits.Evm.Action.return_if
creation_test = refl

execution_test :
    (execute_split_impl clients "" "0xsplit" (some 1000) start).0 ≡ ok (executed "0xhash")
unfolding execute_split_impl splits.Evm.Action.◌>>=◌ splits.Evm.Action.return_if
execution_test = refl

ensure_split_lem_example :
    WritesAt
      (EnsureTrace clients "" "0xfactory" params)
      (ensure_split clients "" "0xfactory" params)
      start
ensure_split_lem_example = ensure_split_lem clients "" "0xfactory" params start

execute_split_impl_lem_example :
    WritesAt
      (ExecuteTrace clients "" "0xsplit")
      (execute_split_impl clients "" "0xsplit" (some 1000))
      start
execute_split_impl_lem_example = execute_split_impl_lem clients "" "0xsplit" (some 1000) start
