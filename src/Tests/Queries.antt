-- ===== src/Tests/Queries.antt =====
-- Runs of the queries of database/pchain_queries.go on concrete tables.
use flare_p_chain_indexer.Prelude.{◌≡◌, refl, true, none, some, [], ◌∷◌, ok}
use flare_p_chain_indexer.Prelude.Int.{pos}
use flare_p_chain_indexer.Prelude.Str.{str_order}
use flare_p_chain_indexer.Prelude.Order.{sort_by}
use flare_p_chain_indexer.Database.{add_validator_tx, PChainTxData}
use flare_p_chain_indexer.Database.PChain.{
  distinct_ids, PChainTables, find_p_chain_tx_in_block_height, fetch_p_chain_staking_transactions,
  first_in_block, join_inputs,
}
use flare_p_chain_indexer.Database.PChain.Blocks.{FoundIn, find_p_chain_tx_in_block_height-FoundIn}
use flare_p_chain_indexer.Database.PChain.Pages.{
  ArePages, fetch_p_chain_staking_transactions-ArePages,
}
use flare_p_chain_indexer.Tests.{row_a, row_b, row_c}

abbrev pub tables : PChainTables
tables = record {
  txs = row_c.tx ∷ row_a.tx ∷ row_b.tx ∷ [];
  ins =
      record { in_idx = 0; tx_id = "a"; amount = 5; address = "addr"; out_tx_id = "t"; out_idx = 0 }
      ∷ [];
  outs = [];
  error = none;
  collation = str_order;
}

-- the transaction `c` has no input in the table
abbrev row_of_c : PChainTxData
row_of_c = record { tx = row_c.tx; input_address = ""; input_index = 0 }

found : find_p_chain_tx_in_block_height tables "c" 5 ≡ ok (some row_of_c, true)
unfolding find_p_chain_tx_in_block_height first_in_block join_inputs
found = refl

-- `a` stands in the same block, and is not found
not_found : find_p_chain_tx_in_block_height tables "a" 5 ≡ ok (none, true)
unfolding find_p_chain_tx_in_block_height first_in_block join_inputs
not_found = refl

find_p_chain_tx_in_block_height-FoundIn_example : FoundIn tables "c" 5 (some row_of_c, true)
find_p_chain_tx_in_block_height-FoundIn_example =
    find_p_chain_tx_in_block_height-FoundIn tables "c" 5 (some row_of_c, true) found

first_page :
    fetch_p_chain_staking_transactions tables add_validator_tx "" "" none (pos 0) (pos 2)
    ≡ ok ("a" ∷ "b" ∷ [])
unfolding fetch_p_chain_staking_transactions distinct_ids sort_by str_order
first_page = refl

second_page :
    fetch_p_chain_staking_transactions tables add_validator_tx "" "" none (pos 2) (pos 5)
    ≡ ok ("c" ∷ [])
unfolding fetch_p_chain_staking_transactions distinct_ids sort_by str_order
second_page = refl

fetch_p_chain_staking_transactions-ArePages_example :
    ArePages tables add_validator_tx "" "" none
      (pos 0)
      (pos 2)
      ("a" ∷ "b" ∷ [])
      (pos 2)
      (pos 5)
      ("c" ∷ [])
fetch_p_chain_staking_transactions-ArePages_example =
    fetch_p_chain_staking_transactions-ArePages tables add_validator_tx "" "" none (pos 0) (pos 2)
      ("a" ∷ "b" ∷ []) (pos 2) (pos 5) ("c" ∷ []) first_page second_page
