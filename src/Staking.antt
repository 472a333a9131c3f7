-- ===== src/Staking.antt =====
-- utils/staking/utils.go: staking transactions as leaves of the Merkle tree that the indexer votes
-- for. avalanchego's identifiers and Bech32, and go-ethereum's ABI encoding, are a parameter.
pub mod Dedupe
pub mod Epochs
pub mod Proofs
use Prim.Native.String.{String}
use flare_p_chain_indexer.Prelude.{
  ℕ, zero, ◌+◌, ◌≡◌, Bool, true, false, ◌||◌, Option, none, some, List, [], ◌∷◌, ◌++◌, map, ◌==◌,
  if◌then◌else◌, take, replicate, not, Run, ok, err, panic, ◌>>=◌, or_else, errorf, wrap_err,
}
use flare_p_chain_indexer.Prelude.Int.{to_uint64}
use flare_p_chain_indexer.Prelude.Time.{Time, unix}
use flare_p_chain_indexer.Prelude.Str.{str_eq, str_order}
use flare_p_chain_indexer.Prelude.Maps.{Assoc, insert, string_eq}
use flare_p_chain_indexer.Prelude.Order.{sort_by}
use flare_p_chain_indexer.Database.{PChainTxType, add_validator_tx, add_delegator_tx, PChainTxData}
use flare_p_chain_indexer.Merkle
use flare_p_chain_indexer.Merkle.{HashApi, Tree}

-- `mirroring.IPChainStakeMirrorVerifierPChainStake`
pub record StakeData : Type 0 where
  pub tx_id : List ℕ
  pub staking_type : ℕ
  pub input_address : List ℕ
  pub node_id : List ℕ
  pub start_time : ℕ
  pub end_time : ℕ
  pub weight : ℕ

pub record StakingApi : Type 1 where
  pub hashes : HashApi
  pub open hashes use {Hash, zero_hash}
  -- `ids.FromString`
  pub id_from_string : String → Run (List ℕ)
  -- `ids.NodeIDFromString`
  pub node_id_from_string : String → Run (List ℕ)
  -- `address.ParseBech32`: the human-readable part and the bytes
  pub parse_bech32 : String → Run (String × List ℕ)
  -- `chain.AddressHRP`, which the configuration sets
  pub address_hrp : String
  -- `merkleTreeItemABIObjectArguments.Pack`
  pub pack : StakeData → Run (List ℕ)

unfoldable pub get_tx_type : PChainTxType → Run ℕ
get_tx_type add_validator_tx = ok 0
get_tx_type add_delegator_tx = ok 1
get_tx_type _ = err (errorf "invalid tx type")

-- `copy(address20[:], address)`
unfoldable pub copy_20 : List ℕ → List ℕ
copy_20 bytes = take 20 (bytes ++ replicate 20 0)

-- The transactions of a map of DedupeTxs are keyed by this; it is not `nil` there.
unfoldable pub id_of : PChainTxData → String
id_of tx = elim tx.tx_id [ none ↦ "" | some id ↦ id ]

-- the first loop of DedupeTxs
unfoldable pub dedupe_loop :
    List PChainTxData → Assoc String PChainTxData → Assoc String PChainTxData
dedupe_loop [] tx_set = tx_set
dedupe_loop (tx ∷ txs) tx_set = dedupe_loop txs (elim tx.tx_id [
  | none ↦ tx_set
  | some id ↦ if tx.input_index == 0 then insert id tx tx_set else tx_set
])

-- the entries of the map in some order, sorted by TxID
unfoldable pub dedupe_txs : List PChainTxData → List PChainTxData
unfolding dedupe_loop
dedupe_txs txs = sort_by str_order id_of (map (λ (_, tx). tx) (dedupe_loop txs []))

module _ (S : StakingApi) where
  open S use {hashes, Hash, id_from_string, node_id_from_string, parse_bech32, address_hrp, pack}

  -- ParseAddress of utils/chain/address.go
  unfoldable pub parse_address : String → Run (List ℕ)
  unfolding copy_20
  parse_address addr = parse_bech32 addr >>= λ (hrp, address).
      if str_eq hrp address_hrp then ok (copy_20 address) else err (errorf "invalid address prefix")

  unfoldable pub to_stake_data : PChainTxData → Run StakeData
  unfolding get_tx_type parse_address
  to_stake_data tx = do
    tx_id ← or_else tx.tx_id panic
    tx_hash ← wrap_err "ids.FromString" (id_from_string tx_id)
    tx_type ← get_tx_type tx.tx_type
    node_id ← wrap_err "ids.NodeIDFromString" (node_id_from_string tx.node_id)
    start ← or_else tx.start_time (err (errorf "tx.StartTime is nil"))
    stop ← or_else tx.end_time (err (errorf "tx.EndTime is nil"))
    address ← wrap_err "utils.ParseAddress" (parse_address tx.input_address)
    ok (record {
      tx_id = tx_hash;
      staking_type = tx_type;
      input_address = address;
      node_id = node_id;
      start_time = to_uint64 (unix start);
      end_time = to_uint64 (unix stop);
      weight = tx.weight;
    })

  unfoldable pub encode_tree_item : PChainTxData → Run (List ℕ)
  unfolding to_stake_data
  encode_tree_item tx = do stake_data ← wrap_err "toStakeData" (to_stake_data tx); pack stake_data

  unfoldable pub hash_transaction : PChainTxData → Run Hash
  unfolding encode_tree_item
  hash_transaction tx = do
    tx_id ← or_else tx.tx_id (err (errorf "tx.TxID is nil"))
    encoded ← wrap_err "encodeTreeItem" (encode_tree_item tx)
    ok (hashes.keccak encoded)

  unfoldable pub hash_loop : List PChainTxData → Run (List Hash)
  hash_loop [] = ok []
  hash_loop (tx ∷ txs) = do
    hash ← wrap_err "getTxHash" (hash_transaction tx)
    rest ← hash_loop txs
    ok (hash ∷ rest)

  unfoldable pub build_tree : List PChainTxData → Run (Tree hashes)
  unfolding hash_loop
  build_tree txs = do values ← hash_loop txs; Merkle.build hashes values false

  unfoldable pub get_merkle_root : List PChainTxData → Run Hash
  unfolding build_tree
  get_merkle_root voting_data = do tree ← build_tree voting_data; Merkle.root hashes tree

  unfoldable pub get_merkle_proof : Tree hashes → PChainTxData → Run (List Hash)
  get_merkle_proof tree tx = do
    hash ← hash_transaction tx
    wrap_err "merkleTree.GetProof" (Merkle.get_proof_from_hash hashes tree hash)
