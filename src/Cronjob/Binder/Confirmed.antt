-- ===== src/Cronjob/Binder/Confirmed.antt =====
-- getEndEpoch of indexer/cronjob/address_binder.go: the last epoch that the voting contract confirmed.
use flare_p_chain_indexer.Prelude.{
  ℕ, zero, suc, ◌≡◌, ap, ◌∙◌, false, Bool-cases, Run-cases, inl, inr, arith, Run, ok, err, panic,
  errorf, wrap, empty_tree, invalid_index, hash_not_found, no_epochs_to_mirror,
  no_epochs_to_register_addresses, no_epochs_to_aggregate,
}
use flare_p_chain_indexer.Prelude.Int.{
  ℤ, pos, ◌+ℤ◌, ◌-ℤ◌, ◌≤ℤ◌, ◌<ℤ◌, leb_ℤ, ltb_ℤ, pos_part, int64, int64-eq, int_laws,
}
use flare_p_chain_indexer.Staking.{StakingApi}
use flare_p_chain_indexer.Staking.Epochs.{get_epoch_index}
use flare_p_chain_indexer.Cronjob.{EpochCronjob}
use flare_p_chain_indexer.Cronjob.Range.{IsSmall, pos_part_cases}
use flare_p_chain_indexer.Cronjob.World.{World, Env}
use flare_p_chain_indexer.Cronjob.Binder.{is_epoch_confirmed, end_epoch_loop, get_end_epoch}

module _ {S : StakingApi} {PublicKey : Type 0} (env : Env S PublicKey) (w : World S PublicKey)
    (start : ℤ) where
  open S use {hashes, Hash, zero_hash}

  -- `r` is the last confirmed epoch after `start` and up to `epoch`.
  pub record IsLastConfirmed (epoch r : ℤ) : Type 0 where
    pub after_start : start <ℤ r
    pub bounded : r ≤ℤ epoch
    pub root : Hash
    pub answered : env.merkle_root w r ≡ ok root
    pub confirmed : hashes.eq root zero_hash ≡ false
    pub later : (e : ℤ) → r <ℤ e → e ≤ℤ epoch → env.merkle_root w e ≡ ok zero_hash

  -- What getEndEpoch may return: the last confirmed epoch, no epoch if none is confirmed, or the
  -- error of a call of the contract.
  abbrev pub EndsAt : ℤ → Run ℤ → Type 0
  EndsAt epoch (ok r) = IsLastConfirmed epoch r
  EndsAt epoch (err no_epochs_to_register_addresses) =
      (e : ℤ) → start <ℤ e → e ≤ℤ epoch → env.merkle_root w e ≡ ok zero_hash
  EndsAt epoch (err (wrap text failure)) = (e : ℤ) × (env.merkle_root w e ≡ err failure)
  EndsAt epoch panic = (e : ℤ) × (env.merkle_root w e ≡ panic)
  EndsAt epoch (err _) = ⊥

  up_to :
      (epoch : ℤ) (low : ℤ)
      → ((e : ℤ) → low <ℤ e → e ≤ℤ epoch -ℤ pos 1 → env.merkle_root w e ≡ ok zero_hash)
      → env.merkle_root w epoch ≡ ok zero_hash
      → (e : ℤ) → low <ℤ e
      → e ≤ℤ epoch
      → env.merkle_root w e ≡ ok zero_hash
  up_to epoch low before here e above below = elim (Bool-cases (leb_ℤ epoch e)) [
    | inl last ↦
        let at_end : epoch ≤ℤ e = ground arith in
        let same : e ≡ epoch = omega int_laws in rw same here
    | inr not_last ↦ let lower : e <ℤ epoch = ground arith in before e above (omega int_laws)
  ]

  EndsAt-extend :
      (epoch : ℤ) (r : Run ℤ)
      → env.merkle_root w epoch ≡ ok zero_hash
      → EndsAt (epoch -ℤ pos 1) r
      → EndsAt epoch r
  EndsAt-extend epoch (ok r) here h = record {
    after_start = h.after_start;
    bounded = (let b = h.bounded in omega int_laws);
    root = h.root;
    answered = h.answered;
    confirmed = h.confirmed;
    later = up_to epoch r h.later here;
  }
  EndsAt-extend epoch (err no_epochs_to_register_addresses) here h = up_to epoch start h here
  EndsAt-extend epoch (err (wrap text failure)) here h = h
  EndsAt-extend epoch panic here h = h
  EndsAt-extend epoch (err empty_tree) here h = h
  EndsAt-extend epoch (err invalid_index) here h = h
  EndsAt-extend epoch (err hash_not_found) here h = h
  EndsAt-extend epoch (err no_epochs_to_mirror) here h = h
  EndsAt-extend epoch (err no_epochs_to_aggregate) here h = h
  EndsAt-extend epoch (err (errorf text)) here h = h

  end_epoch_loop-EndsAt :
      (n : ℕ) (epoch : ℤ)
      → IsSmall epoch
      → pos 0 ≤ℤ start
      → epoch ≤ℤ start +ℤ pos n
      → EndsAt epoch (end_epoch_loop env n start epoch w).0
  unfolding end_epoch_loop is_epoch_confirmed
  end_epoch_loop-EndsAt zero epoch small low few = λ e above below. absurd (omega int_laws)
  end_epoch_loop-EndsAt (suc n) epoch small low few = elim (Bool-cases (ltb_ℤ start epoch)) [
    | inr outside ↦
        let done : epoch ≤ℤ start = ground arith in
        rw outside (λ e above below. absurd (omega arith))
    | inl inside ↦
        let from_start : start <ℤ epoch = ground arith in
        elim (Run-cases (env.merkle_root w epoch)) [
          | inr (inl (failure, e)) ↦ rw (inside, e) (epoch, e)
          | inr (inr e) ↦ rw (inside, e) (epoch, e)
          | inl (h, e) ↦ elim (Bool-cases (hashes.eq h zero_hash)) [
            | inr set ↦
                rw (inside, e, set)
                  (record {
                    after_start = from_start;
                    bounded = omega arith;
                    root = h;
                    answered = e;
                    confirmed = set;
                    later = λ x above below. absurd (omega arith);
                  })
            | inl unset ↦
                let exact : int64 (epoch -ℤ pos 1) ≡ epoch -ℤ pos 1 =
                  int64-eq (epoch -ℤ pos 1)
                    (record { low = omega int_laws; high = omega int_laws }) in
                let less : IsSmall (epoch -ℤ pos 1) = record {
                  low = omega int_laws;
                  high = omega int_laws;
                } in
                let here : env.merkle_root w epoch ≡ ok zero_hash =
                  e ∙ ap ok ((hashes.eq_iff h zero_hash).0 unset) in
                rw (inside, e, unset, exact)
                  (EndsAt-extend epoch _ here
                    (end_epoch_loop-EndsAt n (epoch -ℤ pos 1) less low (omega int_laws)))
          ]
        ]
  ]

  -- For a start from 0 on and a current epoch far from the ends of int64: getEndEpoch returns the
  -- last epoch after `start` and up to the current one for which the voting contract has a root
  -- that is not zero, or reports that there is no epoch if it has none, or an error of the contract.
  pub get_end_epoch-EndsAt :
      (c : EpochCronjob) (curr_epoch : ℤ)
      → get_epoch_index c.epochs (env.now w) ≡ ok curr_epoch
      → IsSmall curr_epoch
      → pos 0 ≤ℤ start
      → EndsAt curr_epoch (get_end_epoch env c start w).0
  unfolding get_end_epoch
  get_end_epoch-EndsAt c curr_epoch indexed small low =
      let sign = pos_part_cases (curr_epoch -ℤ start) in
      rw indexed (
        end_epoch_loop-EndsAt (pos_part (curr_epoch -ℤ start)) curr_epoch small low
          (omega int_laws))
