-- ===== src/Connector/System/Consistent.antt =====
-- ecconnector: what holds of the connector's state between two steps.
use ecgeth.Base.{
  Bool, ℕ, Address, ◌≡◌, ◌≤◌, refl, sym, ◌∙◌, ap, subst, Option, none, some, List, String, Hash,
  length, All,
}
use ecgeth.Base.Outcome.{ok}
use ecgeth.Params.Config.{ChainConfig}
use ecgeth.Types.Header.{copy_header}
use ecgeth.Types.Block.{Block, block_hash, txs_root, with_seal, get_header}
use ecgeth.Types.Block.Facts.{block_hash-keeps}
use ecgeth.Ecpon.Extra.{BlockProof, ExtraCodec}
use ecgeth.Ecpon.Engine.{seal_ecpon_bada}
use ecgeth.Ecpon.Engine.Seal.{seal_ok}
use ecgeth.Connector.Rpc.{RpcError}
use ecgeth.Connector.Batcher.{Node, Shrinks, max_ready_txs}
use ecgeth.Connector.Batcher.Work.{Task, Backend}
use ecgeth.Connector.Batcher.Sound.{IsSound}
use ecgeth.Connector.Batcher.Sound.Builds.{build_block-Builds}
use ecgeth.Connector.Batcher.WorkLoop.{WorkLoop}
use ecgeth.Connector.Batcher.WorkLoop.Tasks.{Keeps}
use ecgeth.Connector.Api.{EcConnector, api_build_block}
use ecgeth.Connector.Api.Candidate.{api_build_block_ok}
use ecgeth.Connector.System.{System, connector, with_connector, with_batcher}

module _ {C Tx Receipt State TxSet Log : Type 0} (node : Node Tx Receipt State TxSet Log)
    (backend : Backend C Tx Receipt State Log) (config : ChainConfig) (codec : ExtraCodec)
    (hex_to_hash : String → Hash) where
  abbrev Sys : Type 0
  Sys = System C Tx Receipt State Log

  -- A block was sealed and written to the chain, with one receipt for each of its transactions, of
  -- which it has at most 20480 and whose root is in its header.
  pub record WasStored (sealed : Block Tx) : Type 0 where
    pub candidate : Block Tx
    pub proof : Option BlockProof
    pub sealing : seal_ecpon_bada {E = RpcError} codec candidate proof none ≡ ok sealed
    pub before : C
    pub after : C
    pub receipts : List Receipt
    pub logs : List Log
    pub state : State
    pub written : backend.write_block sealed receipts logs state before ≡ some after
    pub counted : length receipts ≡ length sealed.transactions
    pub limited : length sealed.transactions ≤ max_ready_txs
    pub root : sealed.header.tx_hash ≡ txs_root node.hashing sealed.transactions

  -- The same header and transactions.
  pub record IsSame (a b : Block Tx) : Type 0 where
    pub same_root : a.header.tx_hash ≡ b.header.tx_hash
    pub same_txs : a.transactions ≡ b.transactions

  -- The batcher is sound, and the candidate is the block of the pending task, if there are both.
  pub record IsConsistent (s : Sys) : Type 0 where
    pub sound : IsSound node backend config s.loop.batcher
    pub candidate :
        (blk : Block Tx) (task : Task Tx Receipt State)
        → s.cblock ≡ some blk
        → s.loop.batcher.pending_task ≡ some task
        → IsSame blk task.block
    pub stored : All WasStored s.sent

  pub hashed-IsSame : (a b : Block Tx) → IsSame a b → IsSame (block_hash node.hashing a).1 b
  hashed-IsSame a b s =
      let (same_header, same_transactions) = block_hash-keeps node.hashing a in
      record {
        same_root = ap (λ h. h.tx_hash) same_header ∙ s.same_root;
        same_txs = same_transactions ∙ s.same_txs;
      }

  pub seal-IsSame :
      (a sealed : Block Tx) (proof : Option BlockProof)
      → seal_ecpon_bada {E = RpcError} codec a proof none ≡ ok sealed
      → IsSame sealed a
  unfolding seal_ecpon_bada with_seal get_header copy_header
  seal-IsSame a sealed none e = absurd (cc e)
  seal-IsSame a sealed (some proof) e =
      let (bytes, encoded, shape) = seal_ok codec a proof none e in
      subst (λ x. IsSame x a) (sym shape) (record { same_root = refl; same_txs = refl })

  pub keep-IsConsistent :
      (s : Sys) (w : WorkLoop Tx Receipt State Log)
      → Keeps node backend config s.loop.batcher w.batcher
      → IsConsistent s
      → IsConsistent (record s { loop = w })
  keep-IsConsistent s w k i = record {
    sound = k.sound i.sound;
    candidate = λ blk task here pending. i.candidate blk task here (k.no_new_task task pending);
    stored = i.stored;
  }

  -- A change of the batcher's status or coinbase.
  pub control-IsConsistent :
      (s : Sys) (running : Bool) (coinbase : Address)
      → IsConsistent s
      → IsConsistent
          (with_batcher (record s.loop.batcher { running = running; coinbase = coinbase }) s)
  control-IsConsistent s running coinbase i = record {
    sound = record {
      env_counted = i.sound.env_counted;
      snapshot_number = i.sound.snapshot_number;
      task_sound = i.sound.task_sound;
    };
    candidate = i.candidate;
    stored = i.stored;
  }

  module _ (shrinks : Shrinks node) where
    pub build-IsConsistent :
        (s : Sys) (current : ℕ) (hash : Hash) (k : EcConnector C Tx Receipt State Log)
        → api_build_block node backend config current (connector s) ≡ ok (hash, k)
        → IsConsistent s
        → IsConsistent (with_connector k s)
    build-IsConsistent s current hash k e i =
        let (same_number, (blk, b, gives, same_hash, left)) =
          api_build_block_ok node backend config current hash (connector s) k e in
        let built =
          build_block-Builds node backend config shrinks current s.chain s.loop.batcher b blk
            i.sound gives in
        subst (λ (x : EcConnector C Tx Receipt State Log). IsConsistent (with_connector x s))
          (sym left)
          (record {
            sound = built.sound;
            candidate = λ blk' task here pending.
                let same_task : built.task ≡ task = cc (pending, built.pending) in
                let same_blk : (block_hash node.hashing blk).1 ≡ blk' = cc here in
                subst (λ x. IsSame x task.block) same_blk
                  (hashed-IsSame blk task.block (record {
                    same_root =
                        ap (λ x. x.header.tx_hash) (sym built.same)
                        ∙ ap (λ x. x.block.header.tx_hash) same_task;
                    same_txs =
                        ap (λ x. x.transactions) (sym built.same)
                        ∙ ap (λ x. x.block.transactions) same_task;
                  }));
            stored = i.stored;
          })
