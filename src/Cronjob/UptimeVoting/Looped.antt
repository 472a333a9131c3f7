-- ===== src/Cronjob/UptimeVoting/Looped.antt =====
-- The loop over the epochs in Call of indexer/cronjob/uptime_voting.go.
use mathlib.Core.List.{append-nil, append_assoc}
use flare_p_chain_indexer.Prelude.{
  ℕ, ◌≡◌, refl, sym, ap, ◌∙◌, ◌⊎◌, inl, inr, Run-cases, List, [], ◌∷◌, ◌++◌, Run, ok, err, Error,
  ok-inj, err-ne-ok, panic-ne-ok,
}
use flare_p_chain_indexer.Prelude.Int.{ℤ}
use flare_p_chain_indexer.Database.{UptimeAggregation}
use flare_p_chain_indexer.Cronjob.Uptime.{aggregate_epoch}
use flare_p_chain_indexer.Cronjob.UptimeVoting.{
  Vote, UptimeWorld, UptimeVoting, voted_nodes, send_vote, submit_votes, aggregate_loop,
}

-- the last of the epochs, or the given one
abbrev pub last_of : ℤ → List ℤ → ℤ
last_of last [] = last
last_of last (e ∷ es) = last_of e es

module _ (c : UptimeVoting) where
  open c use {cronjob}

  -- after a vote
  abbrev pub sent : ℤ → List (List ℕ) → Run (Unit {0}) → UptimeWorld → UptimeWorld
  sent e ids answer w = record w {
    votes = w.votes ++ record { epoch = e; node_ids = ids; answer = answer } ∷ [];
  }

  -- From a world on, the rows are the aggregations of the epochs, in order, and the votes are those
  -- for the nodes with enough uptime in each epoch, all of them accepted. The uptimes are read after
  -- the votes for the epochs before.
  abbrev pub AreVoted : UptimeWorld → List ℤ → List UptimeAggregation → List Vote → Type 0
  AreVoted w [] rows votes = (rows ≡ []) × (votes ≡ [])
  AreVoted w (e ∷ es) rows votes =
      (own : List UptimeAggregation) × (rest : List UptimeAggregation) × (ids : List (List ℕ))
      × (more : List Vote) × ((aggregate_epoch (c.uptime_db w) cronjob.epochs e ≡ ok own)
          × ((voted_nodes c own ≡ ok ids)
              × ((rows ≡ own ++ rest)
                  × ((votes ≡ record { epoch = e; node_ids = ids; answer = ok tt } ∷ more)
                      × AreVoted (sent e ids (ok tt) w) es rest more))))

  -- What the loop ends with: all epochs are done, or a node of the next one has no identifier, or
  -- its vote was refused.
  abbrev pub Stops : List ℤ → List Vote → Type 0
  Stops rest extra =
      ((rest ≡ []) × (extra ≡ []))
      ⊎ (((e : ℤ) × (es : List ℤ) × (own : List UptimeAggregation) × (x : Error) × ((rest ≡ e ∷ es)
              × ((voted_nodes c own ≡ err x) × (extra ≡ []))))
          ⊎ ((e : ℤ) × (es : List ℤ) × (ids : List (List ℕ)) × (x : Error) × ((rest ≡ e ∷ es)
                × (extra ≡ record { epoch = e; node_ids = ids; answer = err x } ∷ []))))

  -- the tables and the field of the cronjob are as they were
  pub record Untouched (w w' : UptimeWorld) : Type 0 where
    pub last : w'.last_aggregated_epoch ≡ w.last_aggregated_epoch
    pub aggregations : w'.aggregations ≡ w.aggregations
    pub uptimes : w'.uptimes ≡ w.uptimes

  -- what the loop does
  pub record Looped (es : List ℤ) (acc : List UptimeAggregation) (last : ℤ) (w : UptimeWorld)
      (result : List UptimeAggregation × ℤ) (w' : UptimeWorld) : Type 0 where
    pub done : List ℤ
    pub rest : List ℤ
    pub split : es ≡ done ++ rest
    pub rows : List UptimeAggregation
    pub good : List Vote
    pub extra : List Vote
    pub voted : AreVoted w done rows good
    pub stops : Stops rest extra
    pub ends : result ≡ (acc ++ rows, last_of last done)
    pub votes : w'.votes ≡ w.votes ++ (good ++ extra)
    pub untouched : Untouched w w'

  abbrev loop_stops :
      (e : ℤ) (es : List ℤ) (acc : List UptimeAggregation) (last : ℤ) (w w' : UptimeWorld)
      (extra : List Vote)
      → Stops (e ∷ es) extra
      → w'.votes ≡ w.votes ++ extra
      → Untouched w w'
      → Looped (e ∷ es) acc last w (acc, last) w'
  loop_stops e es acc last w w' extra stops votes untouched = record {
    done = [];
    rest = e ∷ es;
    split = refl;
    rows = [];
    good = [];
    extra = extra;
    voted = (refl, refl);
    stops = stops;
    ends = ap (λ (a : List UptimeAggregation). (a, last)) (sym (append-nil acc));
    votes = votes;
    untouched = untouched;
  }

  abbrev result_of : {A : Type 0} → Run A × UptimeWorld → Run A
  result_of p = p.0

  abbrev world_of : {A : Type 0} → Run A × UptimeWorld → UptimeWorld
  world_of p = p.1

  submit_votes-sent :
      (e : ℤ) (own : List UptimeAggregation) (w : UptimeWorld) (ids : List (List ℕ))
      {answer : Run (Unit {0})}
      → voted_nodes c own ≡ ok ids
      → c.submit_answer w e ids ≡ answer
      → submit_votes c e own w ≡ (answer, sent e ids answer w)
  unfolding submit_votes send_vote
  submit_votes-sent e own w ids named answered = rw (named, answered) refl

  submit_votes-unsent :
      (e : ℤ) (own : List UptimeAggregation) (w : UptimeWorld) {x : Error}
      → voted_nodes c own ≡ err x
      → submit_votes c e own w ≡ (err x, w)
  unfolding submit_votes
  submit_votes-unsent e own w failed = rw failed refl

  module _ (e : ℤ) (es : List ℤ) (acc : List UptimeAggregation) (last : ℤ) (w w' : UptimeWorld)
      (own : List UptimeAggregation)
      (aggregated : aggregate_epoch (c.uptime_db w) cronjob.epochs e ≡ ok own) where
    loop_step :
        submit_votes c e own w ≡ (ok tt, w')
        → aggregate_loop c (e ∷ es) acc last w ≡ aggregate_loop c es (acc ++ own) e w'
    unfolding aggregate_loop
    loop_step submitted =
        rw (aggregated, ap result_of submitted, aggregate_loop)
          (ap (λ p. aggregate_loop c es (acc ++ own) e (world_of p)) submitted)

    loop_break :
        {x : Error}
        → submit_votes c e own w ≡ (err x, w')
        → aggregate_loop c (e ∷ es) acc last w ≡ (ok (acc, last), w')
    unfolding aggregate_loop
    loop_break submitted =
        rw (aggregated, ap result_of submitted, aggregate_loop)
          (ap (λ (p : Run (Unit {0}) × UptimeWorld). (ok (acc, last), world_of p)) submitted)

  Looped-broken :
      (e : ℤ) (es : List ℤ) (acc : List UptimeAggregation) (last : ℤ) (w w' : UptimeWorld)
      {result : List UptimeAggregation × ℤ}
      → aggregate_loop c (e ∷ es) acc last w ≡ (ok (acc, last), w')
      → (aggregate_loop c (e ∷ es) acc last w).0 ≡ ok result
      → Looped (e ∷ es) acc last w (acc, last) w'
      → Looped (e ∷ es) acc last w result (aggregate_loop c (e ∷ es) acc last w).1
  Looped-broken e es acc last w w' whole run h =
      let same = ok-inj (ap result_of (sym whole) ∙ run) in rw (whole, sym same) h

  loop_continues :
      (e : ℤ) (es : List ℤ) (acc : List UptimeAggregation) (last : ℤ) (w : UptimeWorld)
      (own : List UptimeAggregation) (ids : List (List ℕ))
      → aggregate_epoch (c.uptime_db w) cronjob.epochs e ≡ ok own
      → voted_nodes c own ≡ ok ids
      → {result : List UptimeAggregation × ℤ} {w' : UptimeWorld}
      → Looped es (acc ++ own) e (sent e ids (ok tt) w) result w'
      → Looped (e ∷ es) acc last w result w'
  loop_continues e es acc last w own ids aggregated named h =
      let vote : Vote = record { epoch = e; node_ids = ids; answer = ok tt } in
      record {
        done = e ∷ h.done;
        rest = h.rest;
        split = ap (λ l. e ∷ l) h.split;
        rows = own ++ h.rows;
        good = vote ∷ h.good;
        extra = h.extra;
        voted = (own, h.rows, ids, h.good, (aggregated, (named, (refl, (refl, h.voted)))));
        stops = h.stops;
        ends =
            h.ends
            ∙ ap (λ (a : List UptimeAggregation). (a, last_of e h.done))
                (append_assoc acc own h.rows);
        votes = h.votes ∙ append_assoc w.votes (vote ∷ []) (h.good ++ h.extra);
        untouched = record {
          last = h.untouched.last;
          aggregations = h.untouched.aggregations;
          uptimes = h.untouched.uptimes;
        };
      }

  pub aggregate_loop-Looped :
      (es : List ℤ) (acc : List UptimeAggregation) (last : ℤ) (w : UptimeWorld)
      {result : List UptimeAggregation × ℤ}
      → (aggregate_loop c es acc last w).0 ≡ ok result
      → Looped es acc last w result (aggregate_loop c es acc last w).1
  unfolding aggregate_loop submit_votes send_vote
  aggregate_loop-Looped [] acc last w run = record {
    done = [];
    rest = [];
    split = refl;
    rows = [];
    good = [];
    extra = [];
    voted = (refl, refl);
    stops = inl (refl, refl);
    ends = sym (ok-inj run) ∙ ap (λ (a : List UptimeAggregation). (a, last)) (sym (append-nil acc));
    votes = sym (append-nil w.votes);
    untouched = record { last = refl; aggregations = refl; uptimes = refl };
  }
  aggregate_loop-Looped (e ∷ es) acc last w run =
      let untouched : Untouched w w = record { last = refl; aggregations = refl; uptimes = refl } in
      elim (Run-cases (aggregate_epoch (c.uptime_db w) cronjob.epochs e)) [
        | inr (inl (x, failed)) ↦ absurd (err-ne-ok (rw (failed, aggregate_loop) at run))
        | inr (inr failed) ↦ absurd (panic-ne-ok (rw (failed, aggregate_loop) at run))
        | inl (own, aggregated) ↦ elim (Run-cases (voted_nodes c own)) [
          | inr (inl (x, failed)) ↦
              let unsent = submit_votes-unsent e own w failed in
              Looped-broken e es acc last w w (loop_break e es acc last w w own aggregated unsent)
                run
                (loop_stops e es acc last w w [] (inr (inl (e, es, own, x, (refl, (failed, refl)))))
                  (sym (append-nil w.votes)) untouched)
          | inr (inr failed) ↦
              absurd (panic-ne-ok (rw (aggregated, failed, submit_votes, aggregate_loop) at run))
          | inl (ids, named) ↦ elim (Run-cases (c.submit_answer w e ids)) [
            | inr (inl (x, refused)) ↦
                let w' = sent e ids (err x) w in
                let submitted = submit_votes-sent e own w ids named refused in
                Looped-broken e es acc last w w'
                  (loop_break e es acc last w w' own aggregated submitted) run
                  (loop_stops e es acc last w w'
                    (record { epoch = e; node_ids = ids; answer = err x } ∷ [])
                    (inr (inr (e, es, ids, x, (refl, refl)))) refl
                    (record { last = refl; aggregations = refl; uptimes = refl }))
            | inr (inr failed) ↦
                let submitted = submit_votes-sent e own w ids named failed in
                absurd
                  (panic-ne-ok (rw (aggregated, ap result_of submitted, aggregate_loop) at run))
            | inl (u, accepted) ↦
                let w' = sent e ids (ok tt) w in
                let submitted = submit_votes-sent e own w ids named accepted in
                let whole = loop_step e es acc last w w' own aggregated submitted in
                rw whole (
                  loop_continues e es acc last w own ids aggregated named
                    (aggregate_loop-Looped es (acc ++ own) e w' (rw whole at run)))
          ]
        ]
      ]
