-- ===== src/Tests/Jobs.antt =====
-- Runs of the cronjobs on a concrete database and concrete contracts.
use flare_p_chain_indexer.Prelude.{ℕ, ◌<◌, ◌≡◌, ◌↔◌, refl, ok, Mem, length, get_or, arith}
use flare_p_chain_indexer.Cronjob.Binder as Binder
use flare_p_chain_indexer.Cronjob.Binder.Confirmed.{EndsAt, get_end_epoch-EndsAt}
use flare_p_chain_indexer.Cronjob.Binder.Keys as Keys
use flare_p_chain_indexer.Cronjob.Binder.Keys.{binder_call-Extends}
use flare_p_chain_indexer.Cronjob.Mirror as Mirror
use flare_p_chain_indexer.Cronjob.Mirror.Stakes as Stakes
use flare_p_chain_indexer.Cronjob.Mirror.Stakes.{mirror_call-Extends}
use flare_p_chain_indexer.Cronjob.Mirror.Sent.{Sent, mirror_txs-Sent}
use flare_p_chain_indexer.Cronjob.Mirror.Epochs.{IsLastEnded, end_epoch-IsLastEnded}
use flare_p_chain_indexer.Cronjob.Range.{
  IsSmall, IsTrimmed, get_trimmed_epoch_range-IsTrimmed, range_epochs-ends,
}
use flare_p_chain_indexer.Cronjob.Trace.{Extends}
use flare_p_chain_indexer.Cronjob.Voting as Voting
use flare_p_chain_indexer.Cronjob.Voting.Votes as Votes
use flare_p_chain_indexer.Cronjob.Voting.Votes.{IsDue, call-Extends}
use flare_p_chain_indexer.Cronjob.Voting.Skips.{Skipped, call-Skipped}
use flare_p_chain_indexer.Tests.{
  toy_hashes, toy_staking, toy_env, toy_epochs, toy_job, toy_world, p_chain_state, voting_state,
  stakes,
}
use flare_p_chain_indexer.Cronjob.{
  get_epoch_range, get_trimmed_epoch_range, indexer_behind, range_epochs, epochs_from,
}
use flare_p_chain_indexer.Cronjob.World.{fetch_state, log, update_state}
use flare_p_chain_indexer.Merkle.{
  get_proof, fold_proof, get_proof_from_hash, binary_search, is_at_or_after, Tree, build,
  build_loop, root, sorted_hash_pair,
}
use flare_p_chain_indexer.Prelude.Int.{
  ℤ, int_laws, int64, of_uint64, pos, quot, ◌*ℤ◌, ◌+ℤ◌, ◌-ℤ◌, ◌≤ℤ◌,
}
use flare_p_chain_indexer.Prelude.Maps.{insert, lookup}
use flare_p_chain_indexer.Prelude.Order.{sort_by}
use flare_p_chain_indexer.Prelude.Str.{str_order}
use flare_p_chain_indexer.Prelude.Time.{add, sub}
use flare_p_chain_indexer.Prelude.Search.{sort_search}
use flare_p_chain_indexer.Staking.{
  get_merkle_proof, build_tree, dedupe_txs, get_merkle_root, hash_transaction, id_of,
}
use flare_p_chain_indexer.Staking.Epochs.{get_end_time, get_epoch_index}

p_chain_read : fetch_state toy_env "p_chain_block" toy_world ≡ (ok p_chain_state, toy_world)
unfolding fetch_state lookup
p_chain_read = refl

voting_read : fetch_state toy_env "voting_cronjob" toy_world ≡ (ok voting_state, toy_world)
unfolding fetch_state lookup
voting_read = refl

ranged :
    get_epoch_range toy_job (of_uint64 2) (pos 150) ≡ ok (record { start = pos 2; end = pos 3 })
unfolding get_epoch_range get_epoch_index get_trimmed_epoch_range int64 ◌+ℤ◌ of_uint64 ◌-ℤ◌ quot sub
ranged = refl

-- epoch 2 is passed over, epoch 3 is voted for
votes_cast : length ((Voting.call toy_env toy_job toy_world).1.events) ≡ 3
unfolding Voting.call fetch_state lookup get_epoch_range get_epoch_index range_epochs ◌+ℤ◌ ◌-ℤ◌
    get_trimmed_epoch_range int64 of_uint64 quot sub indexer_behind add get_end_time ◌*ℤ◌
    Voting.submit_votes update_state dedupe_txs sort_by insert str_order id_of get_merkle_root
    hash_transaction build build_loop root log
votes_cast = refl

now_in_5 : get_epoch_index toy_epochs (pos 150) ≡ ok (pos 5)
unfolding get_epoch_index int64 quot sub ◌-ℤ◌
now_in_5 = refl

call-Extends_example :
    Extends
      (Votes.Proper toy_env toy_job (IsDue toy_env toy_job toy_world))
      toy_world
      (Voting.call toy_env toy_job toy_world).1
call-Extends_example = call-Extends toy_env toy_job toy_world

call-Skipped_example :
    Skipped toy_env toy_job p_chain_state
      (range_epochs (record { start = pos 2; end = pos 3 }))
      voting_state
      toy_world
      (Voting.call toy_env toy_job toy_world).1
call-Skipped_example =
    call-Skipped toy_env toy_job toy_world p_chain_state voting_state
      (record { start = pos 2; end = pos 3 }) p_chain_read voting_read ranged

mirror_call-Extends_example :
    Extends (Stakes.Proper toy_env toy_job) toy_world (Mirror.call toy_env toy_job toy_world).1
mirror_call-Extends_example = mirror_call-Extends toy_env toy_job toy_world

mirrored : (Mirror.mirror_txs toy_env stakes (pos 2) toy_world).0 ≡ ok tt
unfolding Mirror.mirror_txs build_tree hash_transaction build build_loop sort_by
    Mirror.check_merkle_root root sorted_hash_pair Mirror.mirror_loop Mirror.mirror_tx
    get_merkle_proof get_proof_from_hash binary_search sort_search is_at_or_after get_or get_proof
    fold_proof Mirror.send_mirror_stake Mirror.after_mirror_stake log
mirrored = refl

mirror_txs-Sent_example :
    (tree : Tree toy_hashes) × ((build_tree toy_staking stakes ≡ ok tree)
      × Sent toy_env tree stakes toy_world (Mirror.mirror_txs toy_env stakes (pos 2) toy_world).1)
mirror_txs-Sent_example = mirror_txs-Sent toy_env stakes (pos 2) toy_world mirrored

small : (n : ℕ) → n < 1000 → IsSmall (pos n)
small n h = record { low = omega arith; high = omega arith }

end_epoch-IsLastEnded_example :
    IsLastEnded toy_epochs
      (pos 150)
      (pos 1)
      (pos 7)
      (Mirror.end_epoch toy_epochs (pos 150) (pos 1) (pos 7))
end_epoch-IsLastEnded_example =
    end_epoch-IsLastEnded toy_epochs (pos 150) (pos 1) (pos 7) (small 7 (omega arith)) (omega arith)

get_trimmed_epoch_range-IsTrimmed_example :
    IsTrimmed toy_job (pos 3) (pos 9) (get_trimmed_epoch_range toy_job (pos 3) (pos 9))
get_trimmed_epoch_range-IsTrimmed_example =
    get_trimmed_epoch_range-IsTrimmed toy_job (pos 3) (pos 9) (small 3 (omega arith))
      (small 9 (omega arith)) (small 0 (omega arith)) (small 2 (omega arith))

range_epochs-ends_example :
    (epochs_from 9 (pos 3) (pos 5) ≡ range_epochs (record { start = pos 3; end = pos 5 }))
    × ((x : ℤ)
        → Mem x (range_epochs (record { start = pos 3; end = pos 5 }))
          ↔ ((pos 3 ≤ℤ x) × (x ≤ℤ pos 5)))
range_epochs-ends_example =
    range_epochs-ends (record { start = pos 3; end = pos 5 }) 9
      (record { low = omega arith; high = omega arith }) (omega arith) (omega int_laws)

binder_call-Extends_example :
    Extends (Keys.Proper toy_env toy_job) toy_world (Binder.call toy_env toy_job toy_world).1
binder_call-Extends_example = binder_call-Extends toy_env toy_job toy_world

-- epochs 1 to 5 are confirmed, so the last one is taken
get_end_epoch-EndsAt_example :
    EndsAt toy_env toy_world
      (pos 1)
      (pos 5)
      (Binder.get_end_epoch toy_env toy_job (pos 1) toy_world).0
get_end_epoch-EndsAt_example =
    get_end_epoch-EndsAt toy_env toy_world (pos 1) toy_job (pos 5) now_in_5 (small 5 (omega arith))
      (omega arith)
