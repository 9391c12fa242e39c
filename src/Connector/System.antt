-- ===== src/Connector/System.antt =====
-- ecconnector: the goroutines of the connector on the state that they share. One step is a round of
-- `newWorkLoop`, a request that `mainLoop` takes, a call of the external consensus, or a change of
-- the chain by the rest of the node. `NotifyMinedBlock`, the other writer of the candidate, is
-- called nowhere.
pub mod Consistent
pub mod Located
pub mod Write
pub mod Sent
pub mod Round
mod Witnesses
use ecgeth.Base.{
  ℕ, suc, ◌+◌, ◌≡◌, Bool, true, false, Option, none, some, List, [], ◌∷◌, String, Hash, Address,
  ◌==◌, if◌then◌else◌, length,
}
use ecgeth.Base.Outcome.{Outcome, ok}
use ecgeth.Params.Config.{ChainConfig}
use ecgeth.Types.Block.{Block}
use ecgeth.Ecpon.Extra.{BlockProof, ExtraCodec}
use ecgeth.Connector.Batcher.{Node}
use ecgeth.Connector.Batcher.Work.{
  EcBatcher, Backend, main_new_work, start_batching, stop_batching, set_batcher_etherbase,
  new_ec_batcher,
}
use ecgeth.Connector.Batcher.WorkLoop.{WorkLoop, NewWorkReq, WorkEvent, work_step, start_loop}
use ecgeth.Connector.Api.{EcConnector, api_build_block, api_seal_block}

-- The batcher with the variables of `newWorkLoop`, the fields of `EcConnector` beside it, the chain,
-- and the blocks that were broadcast. `handled` is the number of requests that `mainLoop` has taken.
pub record System (C Tx Receipt State Log : Type 0) : Type 0 where
  pub loop : WorkLoop Tx Receipt State Log
  pub handled : ℕ
  pub cblock : Option (Block Tx)
  pub chain : C
  pub sent : List (Block Tx)

-- The request with a number, counted from the oldest; the list has the latest first.
unfoldable pub request_at : ℕ → List NewWorkReq → Option NewWorkReq
request_at i [] = none
request_at i (r ∷ rs) = if i == length rs then some r else request_at i rs

module _ {C Tx Receipt State Log : Type 0} where
  -- What the API reads and writes.
  abbrev pub connector : System C Tx Receipt State Log → EcConnector C Tx Receipt State Log
  connector s = record {
    batcher = s.loop.batcher;
    cblock = s.cblock;
    chain = s.chain;
    sent = s.sent;
  }

  abbrev pub with_connector :
      EcConnector C Tx Receipt State Log
      → System C Tx Receipt State Log
      → System C Tx Receipt State Log
  with_connector k s = record s {
    loop = record s.loop { batcher = k.batcher };
    cblock = k.cblock;
    chain = k.chain;
    sent = k.sent;
  }

  abbrev pub with_batcher :
      EcBatcher Tx Receipt State Log → System C Tx Receipt State Log → System C Tx Receipt State Log
  with_batcher b s = record s { loop = record s.loop { batcher = b } }

module _ {C Tx Receipt State TxSet Log : Type 0} (node : Node Tx Receipt State TxSet Log)
    (backend : Backend C Tx Receipt State Log) (config : ChainConfig) (codec : ExtraCodec)
    (hex_to_hash : String → Hash) where
  -- `New`, on a chain.
  unfoldable pub new_connector : C → System C Tx Receipt State Log
  unfolding start_loop new_ec_batcher
  new_connector c = record {
    loop = start_loop (new_ec_batcher node backend config);
    handled = 0;
    cblock = none;
    chain = c;
    sent = [];
  }

  -- The values of the interrupt while `mainLoop` works are any. A call that returns an error leaves
  -- the state; `imports` is a block from a peer, a reorganisation, or a change of the pool.
  pub data Step (s u : System C Tx Receipt State Log) : Type 0 where
    works : (e : WorkEvent) → u ≡ record s { loop = work_step e s.loop } → Step s u
    takes :
        (signal later : ℕ → ℕ) (req : NewWorkReq) (b : EcBatcher Tx Receipt State Log)
        → request_at s.handled s.loop.requests ≡ some req
        → main_new_work node backend config signal later req.timestamp s.chain s.loop.batcher ≡ ok b
        → u ≡ record (with_batcher b s) { handled = suc s.handled }
        → Step s u
    builds :
        (current : ℕ) (hash : Hash) (k : EcConnector C Tx Receipt State Log)
        → api_build_block node backend config current (connector s) ≡ ok (hash, k)
        → u ≡ with_connector k s
        → Step s u
    seals :
        (bhash : String) (proof : Option BlockProof) (k : EcConnector C Tx Receipt State Log)
        → api_seal_block node backend config codec hex_to_hash bhash proof (connector s) ≡ ok k
        → u ≡ with_connector k s
        → Step s u
    starts : u ≡ with_batcher (start_batching s.loop.batcher) s → Step s u
    stops : u ≡ with_batcher (stop_batching s.loop.batcher) s → Step s u
    sets_etherbase :
        (addr : Address) → u ≡ with_batcher (set_batcher_etherbase addr s.loop.batcher) s → Step s u
    imports : (c : C) → u ≡ record s { chain = c } → Step s u

  -- What some steps lead to.
  pub data Reach (s : System C Tx Receipt State Log) : System C Tx Receipt State Log → Type 0 where
    stays : Reach s s
    goes : {u v : System C Tx Receipt State Log} → Reach s u → Step u v → Reach s v
