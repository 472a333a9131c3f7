-- ===== src/Cronjob/Binder/Keys.antt =====
-- Which public keys the address binder cronjob registers.
use Prim.Native.String.{String}
use mathlib.Core.List.{mem-cons_self, mem-cons_of_mem}
use flare_p_chain_indexer.Prelude.{
  ℕ, zero, suc, ◌%◌, ◌^◌, ◌≡◌, refl, ap, ◌∙◌, false, some, none, List, [], ◌∷◌, Mem, arith, leb,
  length, get_elem?, Run, ok, err, panic, or_else, Option, or_else, errorf, wrap, empty_tree,
  invalid_index, hash_not_found, no_epochs_to_mirror, no_epochs_to_register_addresses,
  no_epochs_to_aggregate, ok-inj,
}
use flare_p_chain_indexer.Prelude.Int.{ℤ, pos, ◌+ℤ◌, ◌-ℤ◌, pos_part, int64}
use flare_p_chain_indexer.Prelude.Maps.{contains, add_to_set, string_eq}
use flare_p_chain_indexer.Exec.{bind-eq-ok, lift, asks}
use flare_p_chain_indexer.Database.{PChainTxData}
use flare_p_chain_indexer.Staking.{StakingApi, dedupe_txs}
use flare_p_chain_indexer.Staking.Epochs.{get_time_range, get_epoch_index}
use flare_p_chain_indexer.Cronjob.{EpochCronjob, EpochRange, range_epochs}
use flare_p_chain_indexer.Cronjob.World.{World, Env, Event, register_public_key, fetch_state}
use flare_p_chain_indexer.Cronjob.Trace.{
  bind-post, Extends, Extends-same, Extends-trans, Extends-log, Extends-bind, Extends-if,
  fetch_state-world, update_job_state-events,
}
use flare_p_chain_indexer.Cronjob.Binder.{
  binder_state_name, get_start_epoch, is_epoch_confirmed, end_epoch_loop, get_end_epoch,
  get_epoch_range, get_epoch_txs, send_public_key, register_keys, register_found,
  register_unregistered, register_address, attempt, register_txs, register_epoch, register_epochs,
  call_with, call,
}

-- a value that is there
or_else-eq-ok {ℓ} :
    {A : Type ℓ} (o : Option A) (r : Run A) {a : A} → ¬ (r ≡ ok a) → or_else o r ≡ ok a → o ≡ some a
or_else-eq-ok (some b) r other e = cc
or_else-eq-ok none r other e = absurd (other e)

module _ {S : StakingApi} {PublicKey : Type 0} (env : Env S PublicKey) (c : EpochCronjob) where
  -- The key is one of those that signed the input of a stake of an epoch, and its address was not
  -- registered when the contract was asked.
  pub record IsBound (k : PublicKey) : Type 0 where
    pub epoch : ℤ
    pub read_in : World S PublicKey
    pub rows : List PChainTxData
    pub row : PChainTxData
    pub tx_id : String
    pub asked_in : World S PublicKey
    pub tx : PChainTxData
    pub public_keys : List (List PublicKey)
    pub own : List PublicKey
    pub read :
        env.epoch_txs read_in (get_time_range c.epochs epoch).0 (get_time_range c.epochs epoch).1
        ≡ ok rows
    pub listed : Mem row (dedupe_txs rows)
    pub named : row.tx_id ≡ some tx_id
    pub unregistered : env.is_address_registered asked_in row.input_address ≡ ok false
    pub found : env.get_tx asked_in tx_id row.input_address ≡ ok (some tx)
    pub signed : env.public_keys tx.bytes ≡ ok public_keys
    pub chosen : get_elem? public_keys tx.input_index ≡ some own
    pub member : Mem k own

  -- Nothing but such keys is registered.
  abbrev pub Proper : Event S PublicKey → Type 0
  Proper (register_public_key k answer) = IsBound k
  Proper _ = ⊥

  register_keys-Extends :
      (keys : List PublicKey) (w : World S PublicKey)
      → ((k : PublicKey) → Mem k keys → IsBound k)
      → Extends Proper w (register_keys env keys w).1
  unfolding register_keys send_public_key
  register_keys-Extends [] w bound = Extends-same Proper refl
  register_keys-Extends (k ∷ keys) w bound =
      Extends-bind Proper (send_public_key env k) (λ _. register_keys env keys) w
        (Extends-log Proper _ w (bound k mem-cons_self))
        λ done sent. register_keys-Extends keys _ λ x m. bound x (mem-cons_of_mem k m)

  module _ (epoch : ℤ) (read_in : World S PublicKey) (rows : List PChainTxData)
      (read : env.epoch_txs read_in
          (get_time_range c.epochs epoch).0
          (get_time_range c.epochs epoch).1
        ≡ ok rows)
      (row : PChainTxData) (listed : Mem row (dedupe_txs rows)) (tx_id : String)
      (named : row.tx_id ≡ some tx_id) where
    register_found-Extends :
        (tx : PChainTxData) (asked_in w : World S PublicKey)
        → env.is_address_registered asked_in row.input_address ≡ ok false
        → env.get_tx asked_in tx_id row.input_address ≡ ok (some tx)
        → Extends Proper w (register_found env tx w).1
    unfolding register_found
    register_found-Extends tx asked_in w unregistered found =
        Extends-bind Proper (lift (env.public_keys tx.bytes)) _ w (Extends-same Proper refl)
          λ public_keys signed.
            Extends-if Proper (leb (length public_keys % 2 ^ 32) tx.input_index) _ _ w
              (λ out. Extends-same Proper refl)
              λ inside.
                Extends-bind Proper (lift (or_else (get_elem? public_keys tx.input_index) panic))
                  (register_keys env) w (Extends-same Proper refl)
                  λ own got.
                    let chosen =
                      or_else-eq-ok (get_elem? public_keys tx.input_index) panic (λ e. cc) got in
                    register_keys-Extends own w λ k member. record {
                      epoch = epoch;
                      read_in = read_in;
                      rows = rows;
                      row = row;
                      tx_id = tx_id;
                      asked_in = asked_in;
                      tx = tx;
                      public_keys = public_keys;
                      own = own;
                      read = read;
                      listed = listed;
                      named = named;
                      unregistered = unregistered;
                      found = found;
                      signed = signed;
                      chosen = chosen;
                      member = member;
                    }

    register_address-Extends :
        (w : World S PublicKey)
        → Extends Proper w (register_address env tx_id row.input_address w).1
    unfolding register_address register_unregistered
    register_address-Extends w =
        Extends-bind Proper (asks (λ v. env.is_address_registered v row.input_address)) _ w
          (Extends-same Proper refl)
          λ registered asked.
            Extends-if Proper registered _ _ w (λ y. Extends-same Proper refl)
              λ n.
                Extends-bind Proper (asks (λ v. env.get_tx v tx_id row.input_address)) _ w
                  (Extends-same Proper refl)
                  λ answer got.
                    Extends-bind Proper (lift (or_else answer (err (errorf "tx not found"))))
                      (register_found env) w (Extends-same Proper refl)
                      λ tx is_tx.
                        let there =
                          or_else-eq-ok answer (err (errorf "tx not found")) (λ e. cc) is_tx in
                        register_found-Extends tx w w (asked ∙ ap ok n) (got ∙ ap ok there)

  register_txs-Extends :
      (epoch : ℤ) (read_in : World S PublicKey) (rows : List PChainTxData)
      → env.epoch_txs read_in (get_time_range c.epochs epoch).0 (get_time_range c.epochs epoch).1
        ≡ ok rows
      → (registered : List String) (txs : List PChainTxData) (w : World S PublicKey)
      → ((tx : PChainTxData) → Mem tx txs → Mem tx (dedupe_txs rows))
      → Extends Proper w (register_txs env registered txs w).1
  unfolding register_txs attempt
  register_txs-Extends epoch read_in rows read registered [] w listed = Extends-same Proper refl
  register_txs-Extends epoch read_in rows read registered (tx ∷ txs) w listed =
      let rest = λ (x : PChainTxData) (m : Mem x txs). listed x (mem-cons_of_mem tx m) in
      Extends-if Proper (contains registered tx.input_address) _ _ w
        (λ known. register_txs-Extends epoch read_in rows read registered txs w rest)
        λ new.
          Extends-bind Proper (lift (or_else tx.tx_id panic)) _ w (Extends-same Proper refl)
            λ tx_id got.
              Extends-bind Proper (attempt env (register_address env tx_id tx.input_address)) _ w
                (register_address-Extends epoch read_in rows read tx (listed tx mem-cons_self) tx_id
                  (or_else-eq-ok tx.tx_id panic (λ e. cc) got) w)
                λ done tried.
                  register_txs-Extends epoch read_in rows read
                    (add_to_set registered tx.input_address) txs _ rest

  register_epoch-Extends :
      (registered : List String) (epoch : ℤ) (w : World S PublicKey)
      → Extends Proper w (register_epoch env c registered epoch w).1
  unfolding register_epoch get_epoch_txs
  register_epoch-Extends registered epoch w =
      let range = get_time_range c.epochs epoch in
      Extends-bind Proper (get_epoch_txs env c epoch) (register_txs env registered) w
        (Extends-bind Proper (asks (λ v. env.epoch_txs v range.0 range.1)) _ w
          (Extends-same Proper refl) λ rows read. Extends-same Proper refl)
        λ txs fetched.
          let (rows, read, same) =
            bind-eq-ok (asks (λ v. env.epoch_txs v range.0 range.1)) _ w fetched in
          register_txs-Extends epoch w rows read registered txs _ (λ x m. rw (ok-inj same) m)

  register_epochs-Extends :
      (registered : List String) (es : List ℤ) (w : World S PublicKey)
      → Extends Proper w (register_epochs env c registered es w).1
  unfolding register_epochs
  register_epochs-Extends registered [] w = Extends-same Proper refl
  register_epochs-Extends registered (e ∷ es) w =
      Extends-bind Proper (register_epoch env c registered e) _ w
        (register_epoch-Extends registered e w) λ more done. register_epochs-Extends more es _

  end_epoch_loop-world :
      (n : ℕ) (start epoch : ℤ) (w : World S PublicKey) → (end_epoch_loop env n start epoch w).1 ≡ w
  unfolding end_epoch_loop is_epoch_confirmed
  end_epoch_loop-world zero start epoch w = refl
  end_epoch_loop-world (suc n) start epoch w =
      ground (arith, end_epoch_loop-world n start (int64 (epoch -ℤ pos 1)) w)

  get_start_epoch-world : (w : World S PublicKey) → (get_start_epoch env w).1 ≡ w
  unfolding get_start_epoch
  get_start_epoch-world w =
      let read = fetch_state-world env binder_state_name w in
      bind-post (λ v. v ≡ w) (fetch_state env binder_state_name) _ w read λ s fetched. read

  get_end_epoch-world : (start : ℤ) (w : World S PublicKey) → (get_end_epoch env c start w).1 ≡ w
  unfolding get_end_epoch
  get_end_epoch-world start w =
      bind-post (λ v. v ≡ w) (asks (λ v. get_epoch_index c.epochs (env.now v))) _ w refl
        λ curr now. end_epoch_loop-world (pos_part (curr -ℤ start)) start curr w

  get_epoch_range-world : (w : World S PublicKey) → (get_epoch_range env c w).1 ≡ w
  unfolding get_epoch_range
  get_epoch_range-world w =
      let started = get_start_epoch-world w in
      bind-post (λ v. v ≡ w) (get_start_epoch env) _ w started
        λ start got.
          let ended = get_end_epoch-world start (get_start_epoch env w).1 ∙ started in
          bind-post (λ v. v ≡ w) (get_end_epoch env c start) _ _ ended λ e found. ended

  call_with-Extends :
      (r : Run EpochRange) (w : World S PublicKey) → Extends Proper w (call_with env c r w).1
  unfolding call_with
  call_with-Extends (ok r) w =
      Extends-bind Proper (register_epochs env c [] (range_epochs r)) _ w
        (register_epochs-Extends [] (range_epochs r) w)
        λ done registered.
          Extends-same Proper
            (update_job_state-events env binder_state_name (int64 (r.end +ℤ pos 1)) false _)
  call_with-Extends (err empty_tree) w = Extends-same Proper refl
  call_with-Extends (err invalid_index) w = Extends-same Proper refl
  call_with-Extends (err hash_not_found) w = Extends-same Proper refl
  call_with-Extends (err no_epochs_to_mirror) w = Extends-same Proper refl
  call_with-Extends (err no_epochs_to_register_addresses) w = Extends-same Proper refl
  call_with-Extends (err no_epochs_to_aggregate) w = Extends-same Proper refl
  call_with-Extends (err (errorf t)) w = Extends-same Proper refl
  call_with-Extends (err (wrap t e)) w = Extends-same Proper refl
  call_with-Extends panic w = Extends-same Proper refl

  -- Whatever the database, the contracts and the clock answer, a call of the address binder cronjob
  -- registers only keys that signed the input of a stake, as the database returned it for an epoch,
  -- and only after the contract said that the address of the stake is not registered.
  pub binder_call-Extends : (w : World S PublicKey) → Extends Proper w (call env c w).1
  unfolding call
  binder_call-Extends w =
      Extends-trans Proper
        (Extends-same Proper (ap (λ (u : World S PublicKey). u.events) (get_epoch_range-world w)))
        (call_with-Extends (get_epoch_range env c w).0 (get_epoch_range env c w).1)
