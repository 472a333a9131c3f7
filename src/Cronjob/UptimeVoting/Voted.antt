-- ===== src/Cronjob/UptimeVoting/Voted.antt =====
-- What a call of indexer/cronjob/uptime_voting.go votes for and stores.
use mathlib.Core.List.{append-nil}
use flare_p_chain_indexer.Prelude.{
  ◌≡◌, refl, ap, ◌∙◌, ◌⊎◌, inl, inr, Option-cases, arith, List, [], ◌∷◌, ◌++◌, Run, ok, err,
  no_epochs_to_aggregate, empty_tree, invalid_index, hash_not_found, no_epochs_to_mirror,
  no_epochs_to_register_addresses, errorf, wrap, panic, err-ne-ok, panic-ne-ok,
}
use flare_p_chain_indexer.Prelude.Int.{ℤ}
use flare_p_chain_indexer.Exec.{bind-eq-ok, bind-run, ◌>>◌}
use flare_p_chain_indexer.Database.{UptimeAggregation}
use flare_p_chain_indexer.Database.PChain.{create_rows}
use flare_p_chain_indexer.Cronjob.{EpochRange, range_epochs}
use flare_p_chain_indexer.Cronjob.UptimeVoting.{
  Vote, UptimeWorld, UptimeVoting, aggregate_loop, persist, delete_old_uptimes, delete_logged,
  finish, set_last, aggregate_range, call_with, aggregation_range, call,
}
use flare_p_chain_indexer.Cronjob.UptimeVoting.Looped.{
  last_of, AreVoted, Stops, aggregate_loop-Looped,
}

module _ (c : UptimeVoting) where
  -- What a successful call has done: the epochs of a first part of the range were aggregated and
  -- voted for, their aggregations and no others stored, and the field of the cronjob set to the last
  -- of them. Some uptimes may be gone.
  pub record Aggregated (r : EpochRange) (w w' : UptimeWorld) : Type 0 where
    pub done : List ℤ
    pub rest : List ℤ
    pub split : range_epochs r ≡ done ++ rest
    pub rows : List UptimeAggregation
    pub good : List Vote
    pub extra : List Vote
    pub voted : AreVoted c w done rows good
    pub stops : Stops c rest extra
    pub votes : w'.votes ≡ w.votes ++ (good ++ extra)
    pub stored : w'.aggregations ≡ w.aggregations ++ rows
    pub last : w'.last_aggregated_epoch ≡ last_of w.last_aggregated_epoch done

  persist-stores :
      (rows : List UptimeAggregation) (w : UptimeWorld)
      → (persist c rows w).0 ≡ ok tt
      → (persist c rows w).1 ≡ record w { aggregations = w.aggregations ++ rows }
  unfolding persist create_rows
  persist-stores [] w run = rw (append-nil w.aggregations) refl
  persist-stores (a ∷ rows) w run = elim (Option-cases (c.persist_error w)) [
    | inl none_ ↦ rw (none_, persist) refl
    | inr (x, failed) ↦ absurd (err-ne-ok (rw (failed, persist) at run))
  ]

  delete_old_uptimes-keeps :
      (w : UptimeWorld)
      → ((delete_old_uptimes c w).1.votes ≡ w.votes)
        × (((delete_old_uptimes c w).1.aggregations ≡ w.aggregations)
            × ((delete_old_uptimes c w).1.last_aggregated_epoch ≡ w.last_aggregated_epoch))
  unfolding delete_old_uptimes
  delete_old_uptimes-keeps w = (ground arith, (ground arith, ground arith))

  aggregate_range-Aggregated :
      (r : EpochRange) (w : UptimeWorld)
      → (aggregate_range c r w).0 ≡ ok tt
      → Aggregated r w (aggregate_range c r w).1
  unfolding aggregate_range finish set_last delete_logged
  aggregate_range-Aggregated r w run =
      let loop = aggregate_loop c (range_epochs r) [] w.last_aggregated_epoch in
      let (result, looped, run_f) = bind-eq-ok loop (finish c) w run in
      let h = aggregate_loop-Looped c (range_epochs r) [] w.last_aggregated_epoch w looped in
      let w₁ = (loop w).1 in
      let rest = set_last c result.1 >> delete_logged c in
      let (u, persisted, run_d) = bind-eq-ok (persist c result.0) (λ _. rest) w₁ run_f in
      let w₂ : UptimeWorld = record w₁ {
        aggregations = w₁.aggregations ++ result.0;
        last_aggregated_epoch = result.1;
      } in
      let whole : aggregate_range c r w ≡ (ok tt, (delete_old_uptimes c w₂).1) =
        bind-run loop (finish c) w looped
        ∙ bind-run (persist c result.0) (λ _. rest) w₁ persisted
        ∙ ap rest (persist-stores result.0 w₁ persisted) in
      let (votes, (stored, last)) = delete_old_uptimes-keeps w₂ in
      rw whole (record {
        done = h.done;
        rest = h.rest;
        split = h.split;
        rows = h.rows;
        good = h.good;
        extra = h.extra;
        voted = h.voted;
        stops = h.stops;
        votes = votes ∙ h.votes;
        stored =
            stored
            ∙ ap (λ (p : List UptimeAggregation × ℤ). w₁.aggregations ++ p.0) h.ends
            ∙ ap (λ l. l ++ h.rows) h.untouched.aggregations;
        last = last ∙ ap (λ (p : List UptimeAggregation × ℤ). p.1) h.ends;
      })

  -- A call that succeeds has found no epoch to aggregate and done nothing, or has aggregated epochs
  -- of its range.
  abbrev pub Ends : UptimeWorld → UptimeWorld → Type 0
  Ends w w' =
      ((aggregation_range c w ≡ err no_epochs_to_aggregate) × (w' ≡ w))
      ⊎ ((r : EpochRange) × ((aggregation_range c w ≡ ok r) × Aggregated r w w'))

  call_with-Ends :
      (range : Run EpochRange) (w : UptimeWorld)
      → aggregation_range c w ≡ range
      → (call_with c range w).0 ≡ ok tt
      → Ends w (call_with c range w).1
  unfolding call_with
  call_with-Ends (ok r) w e run = inr (r, (e, aggregate_range-Aggregated r w run))
  call_with-Ends (err no_epochs_to_aggregate) w e run = inl (e, refl)
  call_with-Ends (err empty_tree) w e run = absurd (err-ne-ok run)
  call_with-Ends (err invalid_index) w e run = absurd (err-ne-ok run)
  call_with-Ends (err hash_not_found) w e run = absurd (err-ne-ok run)
  call_with-Ends (err no_epochs_to_mirror) w e run = absurd (err-ne-ok run)
  call_with-Ends (err no_epochs_to_register_addresses) w e run = absurd (err-ne-ok run)
  call_with-Ends (err (errorf text)) w e run = absurd (err-ne-ok run)
  call_with-Ends (err (wrap text x)) w e run = absurd (err-ne-ok run)
  call_with-Ends panic w e run = absurd (panic-ne-ok run)

  -- If a call of the uptime voting cronjob returns no error, then either there was no epoch to
  -- aggregate and nothing was done, or the epochs of a first part of its range were aggregated and
  -- voted for in order, each vote accepted, exactly their aggregations were stored, and the cronjob
  -- remembers the last of them; the range was not finished only because the vote for the next epoch
  -- was refused or could not be made.
  pub call-Ends : (w : UptimeWorld) → (call c w).0 ≡ ok tt → Ends w (call c w).1
  unfolding call
  call-Ends w run = call_with-Ends (aggregation_range c w) w refl run
