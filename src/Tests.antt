-- ===== src/Tests.antt =====
-- Concrete hashes, addresses, contracts and rows, on which the code is run.
pub mod Rows
pub mod Batches
pub mod Chains
pub mod Queries
pub mod Uptimes
pub mod Inputs
pub mod Jobs
pub mod Migrated
pub mod Requests
pub mod Served
pub mod Nodes
use Prim.Native.String.{String}
use flare_p_chain_indexer.Prelude.{
  ℕ, ◌+◌, ◌*◌, ◌%◌, ◌≡◌, refl, Bool, true, false, none, some, List, [], ◌∷◌, ◌++◌, ◌==◌, ==_iff,
  leb, arith, Run, ok, err, panic,
}
use flare_p_chain_indexer.Prelude.Str.{codes}
use flare_p_chain_indexer.Prelude.Order.{LinearOrder}
use flare_p_chain_indexer.Prelude.Int.{ℤ, pos, ltb_ℤ}
use flare_p_chain_indexer.Database.{
  State, PChainTx, PChainTxData, PChainTxType, add_validator_tx, add_delegator_tx, standard_block,
}
use flare_p_chain_indexer.Merkle.{HashApi}
use flare_p_chain_indexer.Staking.{StakingApi, StakeData}
use flare_p_chain_indexer.Staking.Epochs.{EpochInfo}
use flare_p_chain_indexer.Cronjob.{EpochCronjob}
use flare_p_chain_indexer.Cronjob.World.{World, Env}

pub nat_le_trans : (a b c : ℕ) → leb a b ≡ true → leb b c ≡ true → leb a c ≡ true
nat_le_trans a b c h k = ground arith

pub nat_le_total : (a b : ℕ) → leb a b ≡ false → leb b a ≡ true
nat_le_total a b h = ground arith

pub nat_le_antisymm : (a b : ℕ) → leb a b ≡ true → leb b a ≡ true → a ≡ b
nat_le_antisymm a b h k = ground arith

abbrev nat_order : LinearOrder ℕ
nat_order = record {
  le = leb;
  total = nat_le_total;
  trans = nat_le_trans;
  antisymm = nat_le_antisymm;
}

abbrev toy_keccak : List ℕ → ℕ
toy_keccak [] = 7
toy_keccak (b ∷ bytes) = (toy_keccak bytes * 31 + b) % 1009

abbrev pub toy_hashes : HashApi
toy_hashes = record {
  Hash = ℕ;
  eq = ◌==◌;
  eq_iff = ==_iff;
  hex = nat_order;
  zero_hash = 0;
  bytes = λ h. h ∷ [];
  keccak = toy_keccak;
  from_hex = λ s. toy_keccak (codes s);
}

abbrev pub toy_staking : StakingApi
toy_staking = record {
  hashes = toy_hashes;
  id_from_string = λ s. ok (codes s);
  node_id_from_string = λ s. ok (codes s);
  parse_bech32 = λ s. ok ("costwo", codes s);
  address_hrp = "costwo";
  pack = λ d. ok (d.tx_id ++ d.weight ∷ []);
}

-- a staking transaction with its first input
abbrev pub stake_row : String → ℕ → ℕ → PChainTxData
stake_row id weight input_index = record {
  tx = record {
    tx_type = add_validator_tx;
    tx_id = some id;
    block_id = "block";
    block_type = standard_block;
    reward_tx_id = "";
    block_height = 5;
    timestamp = pos 12;
    chain_id = "";
    node_id = "NodeID-1";
    start_time = some (pos 12_000_000_000);
    end_time = some (pos 99_000_000_000);
    time = none;
    weight = weight;
    rewards_owner = "owner";
    bytes = [];
    fee_percentage = 10;
  };
  input_address = "addr";
  input_index = input_index;
}

abbrev pub row_a : PChainTxData
row_a = stake_row "a" 10 0

abbrev pub row_b : PChainTxData
row_b = stake_row "b" 20 0

abbrev pub row_c : PChainTxData
row_c = stake_row "c" 30 0

-- as a join returns them: `b` has two inputs
abbrev pub rows : List PChainTxData
rows = row_b ∷ stake_row "b" 20 1 ∷ row_c ∷ row_a ∷ []

abbrev pub stakes : List PChainTxData
stakes = row_a ∷ row_b ∷ row_c ∷ []

-- epochs of ten nanoseconds from 100 on
abbrev pub toy_epochs : EpochInfo
toy_epochs = record { period = pos 10; start = pos 100; first = pos 0 }

abbrev pub toy_job : EpochCronjob
toy_job = record {
  enabled = true;
  timeout = pos 0;
  epochs = toy_epochs;
  delay = pos 5;
  batch_size = pos 2;
}

abbrev state_of : String → ℕ → State
state_of name next = record {
  name = name;
  next_db_index = next;
  last_chain_index = 6;
  updated = pos 200;
}

abbrev pub p_chain_state : State
p_chain_state = state_of "p_chain_block" 7

abbrev pub voting_state : State
voting_state = state_of "voting_cronjob" 2

abbrev pub mirror_state : State
mirror_state = state_of "mirror_cronjob" 1

abbrev pub binder_state : State
binder_state = state_of "address_binder_cronjob" 4

abbrev pub toy_world : World toy_staking ℕ
toy_world = record {
  states =
      ("p_chain_block", p_chain_state)
      ∷ ("voting_cronjob", voting_state)
      ∷ ("mirror_cronjob", mirror_state)
      ∷ ("address_binder_cronjob", binder_state)
      ∷ [];
  events = [];
}

-- The contracts want a vote for epoch 3 and later, and accept everything.
abbrev pub toy_env : Env toy_staking ℕ
toy_env = record {
  now = λ w. pos 150;
  fetch_error = λ w name. none;
  save_error = λ w s. none;
  voting_data = λ w from to. ok rows;
  epoch_txs = λ w from to. ok rows;
  get_tx = λ w id address. ok (some row_a);
  should_vote_answer = λ w e. ok (ltb_ℤ (pos 2) e);
  submit_vote_answer = λ w e root. ok tt;
  merkle_root = λ w e. ok 185;
  mirror_stake_answer = λ w d p. ok tt;
  is_address_registered = λ w a. ok false;
  register_answer = λ w k. ok tt;
  public_keys = λ bytes. ok ((11 ∷ 12 ∷ []) ∷ []);
}
