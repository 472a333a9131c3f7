-- ===== src/Database.antt =====
-- database/*.go: the rows of the indexer's tables. The column `ID`, which the database fills, is
-- left out, and so are the columns that no modelled code reads.
pub mod Transaction
pub mod PChain
pub mod XChain
use Prim.Native.String.{String}
use flare_p_chain_indexer.Prelude.{ℕ, List, Option}
use flare_p_chain_indexer.Prelude.Int.{ℤ}
use flare_p_chain_indexer.Prelude.Time.{Time}

pub data PChainTxType : Type 0 where
  reward_validator_tx add_delegator_tx add_validator_tx import_tx export_tx : PChainTxType
  advance_time_tx create_chain_tx create_subnet_tx add_subnet_validator_tx : PChainTxType
  unknown_tx : PChainTxType

pub data PChainBlockType : Type 0 where
  proposal_block commit_block abort_block standard_block : PChainBlockType

pub data PChainOutputType : Type 0 where
  default_output stake_output reward_output : PChainOutputType

-- The state of an indexer or of a cronjob.
pub record State : Type 0 where
  pub name : String
  pub next_db_index : ℕ
  pub last_chain_index : ℕ
  pub updated : Time

pub record TxInput : Type 0 where
  pub in_idx : ℕ
  pub tx_id : String
  pub amount : ℕ
  pub address : String
  pub out_tx_id : String
  pub out_idx : ℕ

pub record TxOutput : Type 0 where
  pub tx_id : String
  pub amount : ℕ
  pub idx : ℕ
  pub address : String

pub record PChainTxOutput : Type 0 where
  pub out : TxOutput
  pub open out use *
  pub out_type : PChainOutputType

-- `nil` pointers are `none`.
pub record PChainTx : Type 0 where
  pub tx_type : PChainTxType
  pub tx_id : Option String
  pub block_id : String
  pub block_type : PChainBlockType
  pub reward_tx_id : String
  pub block_height : ℕ
  pub timestamp : Time
  pub chain_id : String
  pub node_id : String
  pub start_time : Option Time
  pub end_time : Option Time
  pub time : Option Time
  pub weight : ℕ
  pub rewards_owner : String
  pub bytes : List ℕ
  pub fee_percentage : ℕ

-- A transaction joined with one of its inputs.
pub record PChainTxData : Type 0 where
  pub tx : PChainTx
  pub open tx use *
  pub input_address : String
  pub input_index : ℕ

pub data UptimeCronjobStatus : Type 0 where
  connected disconnected timeout service_error indexer_started : UptimeCronjobStatus

pub record UptimeCronjob : Type 0 where
  pub timestamp : Time
  pub node_id : Option String
  pub status : UptimeCronjobStatus

pub record UptimeAggregation : Type 0 where
  pub epoch : ℤ
  pub start_time : Time
  pub end_time : Time
  pub node_id : String
  pub value : ℤ
  pub staking_duration : ℤ
