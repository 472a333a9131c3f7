-- ===== src/Cronjob/World.antt =====
-- What the cronjobs act on: the state table of the database and the contracts on the C-chain. The
-- other tables, the contracts and the clock answer as they like, and by what was done before.
use Prim.Native.String.{String}
use flare_p_chain_indexer.Prelude.{
  ℕ, Bool, Option, none, some, List, [], ◌∷◌, ◌++◌, leb, not, ◌&&◌, if◌then◌else◌, Run, ok, err,
  Error, errorf, or_else, wrap_err,
}
use flare_p_chain_indexer.Prelude.Int.{ℤ, to_uint64}
use flare_p_chain_indexer.Prelude.Time.{Time}
use flare_p_chain_indexer.Prelude.Maps.{Assoc, lookup, insert, string_eq}
use flare_p_chain_indexer.Exec.{Exec, pure, ◌>>=◌}
use flare_p_chain_indexer.Database.{State, PChainTxData}
use flare_p_chain_indexer.Staking.{StakingApi, StakeData}

module _ (S : StakingApi) (PublicKey : Type 0) where
  open S use {Hash}

  -- The calls of contracts that the cronjobs make, with the answers, in order.
  pub data Event : Type 0 where
    should_vote : ℤ → Run Bool → Event
    submit_vote : ℤ → Hash → Run (Unit {0}) → Event
    mirror_stake : StakeData → List Hash → Run (Unit {0}) → Event
    register_public_key : PublicKey → Run (Unit {0}) → Event

  pub record World : Type 0 where
    pub states : Assoc String State
    pub events : List Event

  -- The answers of what is not modelled.
  pub record Env : Type 0 where
    pub now : World → Time
    -- an error of the database, on a read or a write of the state table
    pub fetch_error : World → String → Option Error
    pub save_error : World → State → Option Error
    -- FetchPChainVotingData, GetPChainTxsForEpoch, GetPChainTx
    pub voting_data : World → Time → Time → Run (List PChainTxData)
    pub epoch_txs : World → Time → Time → Run (List PChainTxData)
    pub get_tx : World → String → String → Run (Option PChainTxData)
    -- the contracts
    pub should_vote_answer : World → ℤ → Run Bool
    pub submit_vote_answer : World → ℤ → Hash → Run (Unit {0})
    pub merkle_root : World → ℤ → Run Hash
    pub mirror_stake_answer : World → StakeData → List Hash → Run (Unit {0})
    pub is_address_registered : World → String → Run Bool
    pub register_answer : World → PublicKey → Run (Unit {0})
    -- PublicKeysFromPChainBlock
    pub public_keys : List ℕ → Run (List (List PublicKey))

-- A call of a contract is made.
unfoldable pub log :
    {S : StakingApi} {PublicKey : Type 0}
    → Event S PublicKey
    → World S PublicKey
    → World S PublicKey
log event w = record w { events = w.events ++ event ∷ [] }

module _ {S : StakingApi} {PublicKey : Type 0} (env : Env S PublicKey) where
  abbrev Job : Type 0 → Type 0
  Job A = Exec (World S PublicKey) A

  -- FetchState of database/queries.go
  unfoldable pub fetch_state : String → Job State
  fetch_state name w = elim (env.fetch_error w name) [
    | some e ↦ (err e, w)
    | none ↦ (or_else (lookup name w.states) (err (errorf "record not found")), w)
  ]

  -- UpdateState of database/queries.go
  unfoldable pub update_state : State → Job (Unit {0})
  update_state s w = elim (env.save_error w s) [
    | some e ↦ (err e, w)
    | none ↦ (ok tt, record w { states = insert s.name s w.states })
  ]

  -- UpdateJobState of mirror_stubs.go and address_binder_stubs.go, for the job's state
  unfoldable pub update_job_state : String → ℤ → Bool → Job (Unit {0})
  unfolding fetch_state update_state
  update_job_state name epoch force =
      (λ w. let (r, w') = fetch_state name w in (wrap_err "database.FetchState" r, w'))
      >>= λ job_state.
          if not force && leb (to_uint64 epoch) job_state.next_db_index
          then pure tt
          else update_state (record job_state { next_db_index = to_uint64 epoch })
