-- ===== src/Eth/TxSync.antt =====
-- eth/sync.go: `syncTransactions` and `txsyncLoop64`, which sends the pending transactions to a new
-- peer in packs, to one peer at a time. Peers have numbers for ids. Sizes, floats in the source, are
-- natural numbers.
pub mod Run
mod Witnesses
use ecgeth.Base.{
  ℕ, ◌+◌, ◌*◌, ◌==◌, ltb, leb, Bool, true, false, Option, none, some, List, [], ◌∷◌, map, Hash,
  drop, length, if◌then◌else◌,
}
use ecgeth.Base.Outcome.{Outcome, ok, panics}

-- `ETH65` of the protocol.
abbrev pub eth65 : ℕ
eth65 = 65

abbrev pub txsync_pack_size : ℕ
txsync_pack_size = 100 * 1024

-- `txsync`: the peer's version, and what is left to send to it.
pub record TxSync (Tx : Type 0) : Type 0 where
  pub version : ℕ
  pub txs : List Tx

-- What `syncTransactions` does: nothing, an announcement, or a message to the loop.
pub data TxSyncStart (Tx : Type 0) : Type 0 where
  nothing_pending : TxSyncStart Tx
  announces : List Hash → TxSyncStart Tx
  hands_over : TxSync Tx → TxSyncStart Tx

-- The variables of the loop. No error stands for the loop's own end.
pub record TxSyncLoop (Tx : Type 0) : Type 0 where
  pub pending : ℕ → Option (TxSync Tx)
  pub sending : Bool
  pub pack_peer : ℕ
  pub pack_txs : List Tx

-- `m[i] = x`, or a deletion.
abbrev pub set_at : {A : Type 0} → ℕ → A → (ℕ → A) → ℕ → A
set_at i x f j = if i == j then x else f j

module _ {Tx : Type 0} (hash_of : Tx → Hash) (size_of : Tx → ℕ) where
  unfoldable pub sync_transactions : ℕ → List Tx → TxSyncStart Tx
  sync_transactions version [] = nothing_pending
  sync_transactions version (tx ∷ txs) =
      if leb eth65 version
      then announces (map hash_of (tx ∷ txs))
      else hands_over (record { version = version; txs = tx ∷ txs })

  -- `for i := 0; i < len(s.txs) && size < txsyncPackSize; i++`
  unfoldable pub fill_pack : ℕ → List Tx → List Tx
  fill_pack size [] = []
  fill_pack size (tx ∷ txs) =
      let rest = fill_pack (size + size_of tx) txs in
      if ltb size txsync_pack_size then tx ∷ rest else []

  -- What is left of a sync stays pending, unless it is empty.
  abbrev pub left_over : ℕ → List Tx → Option (TxSync Tx)
  left_over version [] = none
  left_over version (tx ∷ txs) = some (record { version = version; txs = tx ∷ txs })

  -- `send`, at the sync that is pending for the id.
  unfoldable pub send : ℕ → TxSync Tx → TxSyncLoop Tx → Outcome ⊥ (TxSyncLoop Tx)
  unfolding fill_pack
  send i s loop =
      let pack = fill_pack 0 s.txs in
      let left = drop (length pack) s.txs in
      if leb eth65 s.version
      then panics
      else ok (record {
        pending = set_at i (left_over s.version left) loop.pending;
        sending = true;
        pack_peer = i;
        pack_txs = pack;
      })

  -- The case of `txsyncCh`.
  unfoldable pub arrive : ℕ → TxSync Tx → TxSyncLoop Tx → Outcome ⊥ (TxSyncLoop Tx)
  unfolding send
  arrive i s loop =
      let loop' = record loop { pending = set_at i (some s) loop.pending } in
      if loop.sending then ok loop' else send i s loop'

  -- The case of `done`, up to the next send.
  unfoldable pub pack_done : Bool → TxSyncLoop Tx → TxSyncLoop Tx
  pack_done fails loop =
      if fails
      then record loop { sending = false; pending = set_at loop.pack_peer none loop.pending }
      else record loop { sending = false }

abbrev pub new_loop : {Tx : Type 0} → TxSyncLoop Tx
new_loop = record { pending = λ i. none; sending = false; pack_peer = 0; pack_txs = [] }
