-- ===== src/Query/Sound.antt =====
-- What the routes of services/routes/query.go confirm.
use flare_p_chain_indexer.Prelude.{
  ◌≡◌, refl, sym, ap, ◌∙◌, Bool, true, false, not, ◌&&◌, inl, inr, Bool-cases, Option, none, some,
  Mem, Run, ok, err, panic, ok-inj, arith, ◌==◌, ==_iff, or_else, if◌then◌else◌, >>=-eq-ok,
  or_else-eq-ok,
}
use flare_p_chain_indexer.Prelude.Int.{eq_ℤ}
use flare_p_chain_indexer.Prelude.Time.{Time, unix}
use flare_p_chain_indexer.Database.{PChainTx, PChainTxData, add_validator_tx, add_delegator_tx}
use flare_p_chain_indexer.Database.PChain.{
  PChainTables, type_eq, is_staking, any_of, find_p_chain_tx_in_block_height,
}
use flare_p_chain_indexer.Database.PChain.Blocks.{find_p_chain_tx_in_block_height-FoundIn}
use flare_p_chain_indexer.Encoding.{ArPChainStaking}
use flare_p_chain_indexer.Query.{
  QueryApi, DhPChainStaking, ApiVerification, status_ok, non_existent_block, reply, invalid_request,
  crash, internal, p_chain_staking, id_bytes, node_text, source_text, node_id_to_hex,
  address_to_hex, id_to_hex, confirm, not_found, verify, process_p_chain_staking_request,
  integrity_request, code_of, prepare_attestation_request,
}

-- The response has the data of a transaction.
pub record Describes (request : ArPChainStaking) (tx : PChainTxData) (response : DhPChainStaking)
    : Type 0 where
  pub block : response.block_number ≡ request.block_number
  pub hash : response.transaction_hash ≡ request.id
  pub kind : response.transaction_type ≡ (if type_eq tx.tx_type add_validator_tx then 0 else 1)
  pub start : (s : Time) × ((tx.start_time ≡ some s) × (response.start_time ≡ unix s))
  pub stop : (e : Time) × ((tx.end_time ≡ some e) × (response.end_time ≡ unix e))
  pub staked : response.weight ≡ tx.weight

-- The verification stands on a staking transaction of the table.
pub record Confirmed (api : QueryApi) (t : PChainTables) (request : ArPChainStaking)
    (v : ApiVerification) : Type 0 where
  pub tx : PChainTxData
  pub stored : Mem tx.tx t.txs
  pub named : tx.tx_id ≡ some (api.to_id (id_bytes request.id))
  pub high : tx.block_height ≡ request.block_number
  pub staking : is_staking tx.tx ≡ true
  pub for_type : request.attestation_type ≡ p_chain_staking
  pub for_chain : eq_ℤ request.source_id api.chain_id ≡ true
  pub asked : v.request ≡ some request
  pub response : DhPChainStaking
  pub answered : v.response ≡ some response
  pub describes : Describes request tx response

reply-inj {ℓ} : {A : Type ℓ} {a b : A} → reply a ≡ reply b → a ≡ b
reply-inj e = cc

invalid-ne-reply {ℓ} : {A : Type ℓ} {a : A} → (e : _) → ¬ (invalid_request e ≡ reply a)
invalid-ne-reply e h = cc

internal-eq-reply {ℓ} : {A : Type ℓ} (r : Run A) {a : A} → internal r ≡ reply a → r ≡ ok a
internal-eq-reply (ok a) e = ap ok (reply-inj e)
internal-eq-reply (err x) e = cc
internal-eq-reply panic e = cc

module _ (api : QueryApi) where
  confirm-Describes :
      (request : ArPChainStaking) (tx : PChainTxData) (v : ApiVerification)
      → confirm api request tx ≡ ok v
      → (v.request ≡ some request)
        × ((response : DhPChainStaking) × ((v.response ≡ some response)
              × Describes request tx response))
  unfolding confirm
  confirm-Describes request tx v run =
      let (node, noded, run₁) = >>=-eq-ok (node_text api (node_id_to_hex api tx.node_id)) _ run in
      let (source, sourced, run₂) =
        >>=-eq-ok
          (source_text api (address_to_hex api tx.input_address) (id_to_hex api tx.input_address)) _
          run₁ in
      let (s, started, run₃) = >>=-eq-ok (or_else tx.start_time panic) _ run₂ in
      let (e, stopped, made) = >>=-eq-ok (or_else tx.end_time panic) _ run₃ in
      let whole = ok-inj made in
      (
        ap (λ (v : ApiVerification). v.request) (sym whole),
        (
          _,
          (
            ap (λ (v : ApiVerification). v.response) (sym whole),
            record {
              block = refl;
              hash = refl;
              kind = refl;
              start = (s, (or_else-eq-ok tx.start_time started, refl));
              stop = (e, (or_else-eq-ok tx.end_time stopped, refl));
              staked = refl;
            },
          ),
        ),
      )

  verify-ok :
      (request : ArPChainStaking) (found : Option PChainTxData × Bool) (v : ApiVerification)
      → verify api request found ≡ ok v
      → v.status ≡ status_ok
      → (tx : PChainTxData) × ((found.0 ≡ some tx)
          × ((is_staking tx.tx ≡ true) × (confirm api request tx ≡ ok v)))
  unfolding verify
  verify-ok request (none, false) v run fine =
      cc (ap (λ (v : ApiVerification). v.status) (ok-inj run))
  verify-ok request (some tx, false) v run fine =
      cc (ap (λ (v : ApiVerification). v.status) (ok-inj run))
  verify-ok request (none, true) v run fine =
      cc (ap (λ (v : ApiVerification). v.status) (ok-inj run))
  verify-ok request (some tx, true) v run fine =
      let staked =
        not (type_eq tx.tx_type add_validator_tx) && not (type_eq tx.tx_type add_delegator_tx) in
      elim (Bool-cases staked) [
        | inl other ↦ cc (ap (λ (v : ApiVerification). v.status) (ok-inj (rw other at run)))
        | inr staking ↦ (tx, (refl, (ground arith, rw staking at run)))
      ]

  module _ (t : PChainTables) (request : ArPChainStaking) where
    -- A verification with the status OK is about an add-validator or add-delegator transaction that
    -- stands in the table under the identifier and at the height of the request, the request was
    -- for this attestation type and for the chain of the indexer, and the response has the block
    -- number, the hash, the type, the times and the weight of that transaction.
    pub process_p_chain_staking_request-Confirmed :
        (v : ApiVerification)
        → process_p_chain_staking_request api t request ≡ reply v
        → v.status ≡ status_ok
        → Confirmed api t request v
    unfolding process_p_chain_staking_request
    process_p_chain_staking_request-Confirmed v run fine =
        elim (Bool-cases (request.attestation_type == p_chain_staking)) [
          | inr other ↦ cc (rw other at run)
          | inl typed ↦ elim (Bool-cases (eq_ℤ request.source_id api.chain_id)) [
            | inr other ↦ cc (rw (typed, other) at run)
            | inl chained ↦
                let (found, searched, verified) =
                  >>=-eq-ok
                    (find_p_chain_tx_in_block_height t (api.to_id (id_bytes request.id))
                      request.block_number)
                    (verify api request) (internal-eq-reply _ (rw (typed, chained) at run)) in
                let (tx, (is_found, (staking, confirmed))) =
                  verify-ok request found v verified fine in
                let about = find_p_chain_tx_in_block_height-FoundIn t _ _ found searched in
                let (named, (high, stored)) = about.sound tx is_found in
                let (asked, (response, (answered, describes))) =
                  confirm-Describes request tx v confirmed in
                record {
                  tx = tx;
                  stored = stored;
                  named = named;
                  high = high;
                  staking = staking;
                  for_type = (==_iff request.attestation_type p_chain_staking).0 typed;
                  for_chain = chained;
                  asked = asked;
                  response = response;
                  answered = answered;
                  describes = describes;
                }
          ]
        ]

    -- If no row of the table is of the height of the request, the request is for this attestation
    -- type and for the chain of the indexer, and the search returns no error, then integrityRequest
    -- and prepareAttestationRequest panic.
    pub integrity_request-crash :
        (found : Option PChainTxData × Bool)
        → request.attestation_type ≡ p_chain_staking
        → eq_ℤ request.source_id api.chain_id ≡ true
        → find_p_chain_tx_in_block_height t (api.to_id (id_bytes request.id)) request.block_number
          ≡ ok found
        → any_of (λ (tx : PChainTx). tx.block_height == request.block_number) t.txs ≡ false
        → (integrity_request api t request ≡ crash)
          × (prepare_attestation_request api t request ≡ crash)
    unfolding process_p_chain_staking_request verify integrity_request code_of
        prepare_attestation_request
    integrity_request-crash (tx, there) typed chained searched unknown =
        let about = find_p_chain_tx_in_block_height-FoundIn t _ _ (tx, there) searched in
        let absent : there ≡ false = about.exists ∙ unknown in
        let whole : process_p_chain_staking_request api t request
            ≡ reply (not_found api non_existent_block) =
          rw ((==_iff request.attestation_type p_chain_staking).1 typed, chained, searched, absent)
            refl in
        (rw whole refl, rw whole refl)
