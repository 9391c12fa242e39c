-- ===== src/Connector/System/Sent.antt =====
-- ecconnector: what holds of the connector's state, and of each block that it broadcasts.
use ecgeth.Base.{
  true, false, ◌≡◌, ◌≤◌, refl, sym, ◌∙◌, ap, subst, Option, none, some, [], ◌∷◌, String, Hash,
  length, All, All-append, inl, inr,
}
use ecgeth.Base.Outcome.{ok}
use ecgeth.Params.Config.{ChainConfig}
use ecgeth.Types.Block.{Block, block_hash, txs_root}
use ecgeth.Ecpon.Extra.{BlockProof, ExtraCodec}
use ecgeth.Ecpon.Engine.{seal_ecpon_bada}
use ecgeth.Connector.Rpc.{RpcError}
use ecgeth.Connector.Batcher.{Node, Shrinks, max_ready_txs}
use ecgeth.Connector.Batcher.Work.{
  Task, Backend, start_batching, stop_batching, set_batcher_etherbase,
}
use ecgeth.Connector.Batcher.Sound.{IsSound, main_new_work-IsSound}
use ecgeth.Connector.Batcher.WorkLoop.{work_step}
use ecgeth.Connector.Batcher.WorkLoop.Tasks.{work_step-Keeps}
use ecgeth.Connector.Api.{EcConnector, api_seal_block}
use ecgeth.Connector.Api.Seal.{api_seal_block_ok}
use ecgeth.Connector.Api.Candidate.{Inserts, insert_block-Inserts}
use ecgeth.Connector.System.{
  System, Step, works, takes, builds, seals, starts, stops, sets_etherbase, imports, Reach, stays,
  goes, connector, with_connector, new_connector,
}
use ecgeth.Connector.System.Consistent.{
  WasStored, IsSame, IsConsistent, hashed-IsSame, seal-IsSame, keep-IsConsistent,
  control-IsConsistent, build-IsConsistent,
}
use ecgeth.Connector.System.Located.{located-IsSound, with_located-IsSound, with_located-block}

module _ {C Tx Receipt State TxSet Log : Type 0} (node : Node Tx Receipt State TxSet Log)
    (backend : Backend C Tx Receipt State Log) (config : ChainConfig) (codec : ExtraCodec)
    (hex_to_hash : String → Hash) where
  abbrev Sys : Type 0
  Sys = System C Tx Receipt State Log

  -- The block that was sealed of a candidate, and stored with the pending task.
  insert-WasStored :
      (s : Sys) (block sealed : Block Tx) (proof : Option BlockProof)
      (k : EcConnector C Tx Receipt State Log)
      → IsConsistent node backend config codec hex_to_hash s
      → s.cblock ≡ some block
      → seal_ecpon_bada {E = RpcError} codec (block_hash node.hashing block).1 proof none
        ≡ ok sealed
      → Inserts node backend config sealed s.chain k.chain s.loop.batcher k.batcher
      → WasStored node backend config codec hex_to_hash sealed
  insert-WasStored s block sealed proof k i here sealing ins =
      let sound = i.sound.task_sound ins.task ins.pending in
      let same = i.candidate block ins.task here ins.pending in
      let hashed = hashed-IsSame node backend config codec hex_to_hash block ins.task.block same in
      let shut =
        seal-IsSame node backend config codec hex_to_hash (block_hash node.hashing block).1 sealed
          proof sealing in
      let txs : sealed.transactions ≡ ins.task.block.transactions =
        shut.same_txs ∙ hashed.same_txs in
      record {
        candidate = (block_hash node.hashing block).1;
        proof = proof;
        sealing = sealing;
        before = s.chain;
        after = k.chain;
        receipts = ins.receipts;
        logs = _;
        state = ins.task.state;
        written = ins.written;
        counted = ins.counted ∙ sound.receipts ∙ ap length (sym txs);
        limited = subst (λ x. length x ≤ max_ready_txs) (sym txs) sound.limited;
        root =
            shut.same_root ∙ hashed.same_root ∙ sound.root ∙ ap (txs_root node.hashing) (sym txs);
      }

  -- The candidate and the pending task behind `SealBlock`.
  sealed-candidate :
      (s : Sys) (block : Block Tx)
      → IsConsistent node backend config codec hex_to_hash s
      → s.cblock ≡ some block
      → (blk : Block Tx) (task : Task Tx Receipt State)
      → some (block_hash node.hashing block).1 ≡ some blk
      → s.loop.batcher.pending_task ≡ some task
      → IsSame node backend config codec hex_to_hash blk task.block
  sealed-candidate s block i here blk task again pending =
      let same_blk : (block_hash node.hashing block).1 ≡ blk = cc again in
      subst (λ x. (IsSame node backend config codec hex_to_hash) x task.block) same_blk
        (hashed-IsSame node backend config codec hex_to_hash block task.block
          (i.candidate block task here pending))

  seal-IsConsistent :
      (s : Sys) (bhash : String) (proof : Option BlockProof)
      (k : EcConnector C Tx Receipt State Log)
      → api_seal_block node backend config codec hex_to_hash bhash proof (connector s) ≡ ok k
      → IsConsistent node backend config codec hex_to_hash s
      → IsConsistent node backend config codec hex_to_hash (with_connector k s)
  seal-IsConsistent s bhash proof k e i =
      let (block, here, same, (sealed, sealing, ends, kept)) =
        api_seal_block_ok node backend config codec hex_to_hash bhash proof (connector s) k e in
      elim ends [
        | inr ((r, failed), same_chain, moved, same_sent) ↦ record {
          sound = subst (IsSound node backend config) (sym moved) (
              with_located-IsSound node backend config sealed s.loop.batcher
                s.loop.batcher.pending_task refl i.sound);
          candidate = λ blk task now pending.
              let (old, was, same_block) =
                with_located-block node backend config sealed s.loop.batcher
                  s.loop.batcher.pending_task task refl
                  (ap (λ b. b.pending_task) (sym moved) ∙ pending) in
              subst (λ x. (IsSame node backend config codec hex_to_hash) blk x) same_block
                (sealed-candidate s block i here blk old (sym kept ∙ now) was);
          stored =
              subst (All (WasStored node backend config codec hex_to_hash)) (sym same_sent)
                i.stored;
        }
        | inl (inserts, sent) ↦
            let ins =
              insert_block-Inserts node backend config sealed s.chain k.chain s.loop.batcher
                k.batcher inserts in
            record {
              sound = subst (IsSound node backend config) (sym ins.left) (
                  located-IsSound node backend config s.loop.batcher ins.task ins.receipts
                    ins.pending ins.counted i.sound);
              candidate = λ blk task now pending.
                  let located : record ins.task { receipts = ins.receipts } ≡ task =
                    cc (pending, ap (λ b. b.pending_task) ins.left) in
                  subst (λ x. (IsSame node backend config codec hex_to_hash) blk x.block) located
                    (sealed-candidate s block i here blk ins.task (sym kept ∙ now) ins.pending);
              stored = subst (All (WasStored node backend config codec hex_to_hash)) (sym sent) (
                  All-append (WasStored node backend config codec hex_to_hash) s.sent (sealed ∷ [])
                    i.stored (insert-WasStored s block sealed proof k i here sealing ins, tt));
            }
      ]

  module _ (shrinks : Shrinks node) where
    Step-IsConsistent :
        (s u : Sys)
        → IsConsistent node backend config codec hex_to_hash s
        → Step node backend config codec hex_to_hash s u
        → IsConsistent node backend config codec hex_to_hash u
    unfolding start_batching stop_batching set_batcher_etherbase
    Step-IsConsistent s u i (works e shape) =
        subst (IsConsistent node backend config codec hex_to_hash) (sym shape) (
          keep-IsConsistent node backend config codec hex_to_hash s (work_step e s.loop)
            (work_step-Keeps node backend config e s.loop) i)
    Step-IsConsistent s u i (takes signal later req b asked makes shape) =
        let (sound, same) =
          main_new_work-IsSound node backend config shrinks signal later req.timestamp s.chain
            s.loop.batcher b i.sound makes in
        subst (IsConsistent node backend config codec hex_to_hash) (sym shape) (record {
          sound = sound;
          candidate = λ blk task here pending. i.candidate blk task here (sym same ∙ pending);
          stored = i.stored;
        })
    Step-IsConsistent s u i (builds current hash k e shape) =
        subst (IsConsistent node backend config codec hex_to_hash) (sym shape)
          (build-IsConsistent node backend config codec hex_to_hash shrinks s current hash k e i)
    Step-IsConsistent s u i (seals bhash proof k e shape) =
        subst (IsConsistent node backend config codec hex_to_hash) (sym shape)
          (seal-IsConsistent s bhash proof k e i)
    Step-IsConsistent s u i (starts shape) =
        subst (IsConsistent node backend config codec hex_to_hash) (sym shape) (
          control-IsConsistent node backend config codec hex_to_hash s true s.loop.batcher.coinbase
            i)
    Step-IsConsistent s u i (stops shape) =
        subst (IsConsistent node backend config codec hex_to_hash) (sym shape) (
          control-IsConsistent node backend config codec hex_to_hash s false s.loop.batcher.coinbase
            i)
    Step-IsConsistent s u i (sets_etherbase addr shape) =
        subst (IsConsistent node backend config codec hex_to_hash) (sym shape) (
          control-IsConsistent node backend config codec hex_to_hash s s.loop.batcher.running addr
            i)
    Step-IsConsistent s u i (imports c shape) =
        subst (IsConsistent node backend config codec hex_to_hash) (sym shape)
          (record { sound = i.sound; candidate = i.candidate; stored = i.stored })

    new_connector-IsConsistent :
        (c : C)
        → IsConsistent node backend config codec hex_to_hash
            (new_connector node backend config codec hex_to_hash c)
    unfolding new_connector
    new_connector-IsConsistent c = record {
      sound = record {
        env_counted = λ env e. absurd (cc e);
        snapshot_number = λ p e. absurd (cc e);
        task_sound = λ task e. absurd (cc e);
      };
      candidate = λ blk task e. absurd (cc e);
      stored = tt;
    }

    Reach-IsConsistent :
        (c : C) {s : Sys}
        → Reach node backend config codec hex_to_hash
            (new_connector node backend config codec hex_to_hash c)
            s
        → IsConsistent node backend config codec hex_to_hash s
    Reach-IsConsistent c stays = new_connector-IsConsistent c
    Reach-IsConsistent c (goes r st) = Step-IsConsistent _ _ (Reach-IsConsistent c r) st

    -- In each state that a new connector comes to, by any order of its loops' rounds, of calls of the
    -- external consensus and of other blocks' arrivals, each block that it has broadcast was sealed
    -- and written to the chain first: with one receipt for each of its transactions, of which it has
    -- at most 20480 and whose root is in its header.
    pub Reach-WasStored :
        (c : C) {s : Sys}
        → Reach node backend config codec hex_to_hash
            (new_connector node backend config codec hex_to_hash c)
            s
        → All (WasStored node backend config codec hex_to_hash) s.sent
    Reach-WasStored c r = (Reach-IsConsistent c r).stored
