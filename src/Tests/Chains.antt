-- ===== src/Tests/Chains.antt =====
-- Runs of the P-chain and X-chain indexers on concrete blocks and vertices.
use Prim.Native.String.{String}
use flare_p_chain_indexer.Prelude.{ℕ, ◌≡◌, refl, none, List, [], ◌∷◌, map, Run, ok, Option}
use flare_p_chain_indexer.Prelude.Int.{pos}
use flare_p_chain_indexer.Prelude.Str.{str_order}
use flare_p_chain_indexer.Database.{
  State, PChainOutputType, default_output, stake_output, TxInput, TxOutput, PChainTxOutput,
}
use flare_p_chain_indexer.Database.PChain.{PChainTables}
use flare_p_chain_indexer.Indexer.{IdIndexKey, key_eq, new_cache}
use flare_p_chain_indexer.Tests.Batches.{atomic}
use flare_p_chain_indexer.Indexer.Batch as Batch
use flare_p_chain_indexer.Indexer.Batch.{ChainIndexerBase, ContainerBatchIndexer}
use flare_p_chain_indexer.Indexer.Outputs.{
  OutputState, transfer_output, outputs_from_tx_outs, update_transferable_output, output_owners,
  BaseTx,
}
use flare_p_chain_indexer.Indexer.InOut as InOut
use flare_p_chain_indexer.Indexer.InOut.{InputOutputIndexer, InputList, listed_slot, update_from_db}
use flare_p_chain_indexer.Indexer.InOut.Resolved.{Resolved}
use flare_p_chain_indexer.Indexer.InOut.Rows.{updated_by_last, update_from_db-last}
use flare_p_chain_indexer.Indexer.PChain as PChain
use flare_p_chain_indexer.Indexer.PChain.{
  Container, Staker, add_validator, import_from, Tx, Block, apricot_standard, PChainApi,
  TxBatchIndexer, get_add_staker_tx_outputs, add_container,
}
use flare_p_chain_indexer.Indexer.PChain.Staked.{
  AreStakerRows, get_add_staker_tx_outputs-AreStakerRows,
}
use flare_p_chain_indexer.Indexer.XChain as XChain
use flare_p_chain_indexer.Indexer.XChain.Vertices.{AddedVertex, add_container-AddedVertex}

abbrev to_alice : ℕ → OutputState
to_alice amount = transfer_output amount ((1 ∷ []) ∷ [])

abbrev staker : Staker
staker = record {
  node_id = "NodeID-1";
  start_time = pos 12;
  end_time = pos 99;
  weight = 40;
  outputs = to_alice 7 ∷ [];
  stake = to_alice 40 ∷ [];
  ins = [];
  rewards_owner = output_owners ((1 ∷ []) ∷ []);
}

-- spends the first output of the stake
abbrev spending : BaseTx
spending = record {
  outs = to_alice 6 ∷ [];
  ins = record { amount = 7; tx_id = "stake"; output_index = 0 } ∷ [];
}

abbrev block : Block
block = apricot_standard 5 (
    record { id = "stake"; unsigned = add_validator staker 20 }
    ∷ record { id = "import"; unsigned = import_from "C" spending }
    ∷ [])

abbrev alice : List ℕ → Run String
alice addr = ok "alice"

abbrev api : PChainApi
api = record {
  parse_block = λ bytes. ok bytes;
  parse_inner_block = λ bytes. ok block;
  get_tx = λ id. ok none;
  get_reward_utxos = λ id. ok [];
  outputs_of = λ tx. [];
  format_address = alice;
  fetch_tx_outputs = λ ids. ok [];
}

abbrev container : Container
container = record { id = "block"; bytes = 1 ∷ 2 ∷ []; timestamp = pos 1000 }

abbrev empty_iox : {Output : Type 0} → InputOutputIndexer Output
empty_iox = record { outs = []; ins = []; cache = new_cache }

abbrev empty_batch : TxBatchIndexer
empty_batch = record { in_out_indexer = empty_iox; new_txs = [] }

abbrev row : ℕ → ℕ → PChainOutputType → PChainTxOutput
row idx amount out_type = record {
  out = record { tx_id = "stake"; amount = amount; idx = idx; address = "alice" };
  out_type = out_type;
}

abbrev staked_rows : List PChainTxOutput
staked_rows = row 0 7 default_output ∷ row 1 40 stake_output ∷ []

staked : get_add_staker_tx_outputs api "stake" staker ≡ ok staked_rows
unfolding get_add_staker_tx_outputs outputs_from_tx_outs update_transferable_output
staked = refl

get_add_staker_tx_outputs-AreStakerRows_example : AreStakerRows api "stake" staker staked_rows
get_add_staker_tx_outputs-AreStakerRows_example =
    get_add_staker_tx_outputs-AreStakerRows api "stake" staker staked_rows staked

abbrev state : State
state = record { name = "p_chain_block"; next_db_index = 5; last_chain_index = 4; updated = pos 40 }

abbrev tables : PChainTables
tables = record { txs = []; ins = []; outs = []; error = none; collation = str_order }

abbrev world : Batch.World TxBatchIndexer PChainTables
world = record { states = ("p_chain_block", state) ∷ []; db = tables; batch = empty_batch }

abbrev no_batches : ContainerBatchIndexer Container TxBatchIndexer PChainTables
no_batches = record {
  reset = λ n b. b;
  add_container = λ i c b. (ok tt, b);
  process_batch = λ b. (ok tt, b);
  persist_entities = λ b db. ok db;
}

abbrev base : ChainIndexerBase Container TxBatchIndexer PChainTables
base = record {
  state_name = "";
  start_index = 3;
  batch_size = 2;
  batch_indexer = no_batches;
  now = λ w. pos 50;
  fetch_error = λ w. none;
  save_error = λ w s. none;
  last_accepted = λ w. ok 9;
  container_range = λ w next size. ok (container ∷ []);
  transactions = atomic;
}

abbrev no_outputs : String → Run (List (IdIndexKey × Option TxOutput))
no_outputs id = ok []

abbrev same : TxOutput → TxOutput
same o = o

abbrev of_alice : TxOutput
of_alice = record { tx_id = "t"; amount = 5; idx = 0; address = "alice" }

abbrev of_bob : TxOutput
of_bob = record { tx_id = "u"; amount = 6; idx = 0; address = "bob" }

abbrev spends : String → TxInput
spends id = record {
  in_idx = 0;
  tx_id = "s";
  amount = 5;
  address = "";
  out_tx_id = id;
  out_idx = 0;
}

abbrev two_rows : List String → Run (List TxOutput)
two_rows ids = ok (of_alice ∷ of_bob ∷ [])

abbrev two_inputs : InputList
two_inputs = record { slots = map listed_slot (spends "t" ∷ spends "u" ∷ []); cache = new_cache }

update_from_db-last_example :
    (update_from_db two_rows ("t" ∷ "u" ∷ []) two_inputs).1.slots
    ≡ map (updated_by_last (of_alice ∷ of_bob ∷ [])) two_inputs.slots
update_from_db-last_example =
    update_from_db-last two_rows ("t" ∷ "u" ∷ []) two_inputs (of_alice ∷ of_bob ∷ []) refl

-- The input that spends the output of Alice gets the address of Bob.
abbrev from_db : InputOutputIndexer TxOutput
from_db = record { outs = []; ins = spends "t" ∷ spends "u" ∷ []; cache = new_cache }

abbrev vertex : XChain.Vertex
vertex = record { id = "v"; parent_ids = "p" ∷ []; height = 3; txs = (1 ∷ []) ∷ [] }

abbrev x_api : XChain.XChainApi
x_api = record {
  parse_vertex = λ bytes. ok vertex;
  parse_genesis_tx = λ bytes. ok (record { id = "x"; unsigned = XChain.base "memo" spending });
  fetch_container = λ id. ok none;
  format_address = alice;
  fetch_tx_outputs = λ ids. ok [];
}

abbrev x_container : XChain.Container
x_container = record { id = "c"; bytes = []; timestamp = pos 8 }

abbrev empty_x : XChain.TxBatchIndexer
empty_x = record { in_out_indexer = empty_iox; new_txs = []; new_vertices = [] }

added_vertex : (XChain.add_container x_api 3 x_container empty_x).0 ≡ ok tt
unfolding XChain.add_container outputs_from_tx_outs update_transferable_output
    InOut.add_new_from_base_tx
added_vertex = refl

add_container-AddedVertex_example :
    AddedVertex x_api 3 x_container empty_x (XChain.add_container x_api 3 x_container empty_x).1
add_container-AddedVertex_example =
    add_container-AddedVertex x_api 3 x_container empty_x added_vertex
