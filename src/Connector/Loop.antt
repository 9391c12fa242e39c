-- ===== src/Connector/Loop.antt =====
-- ecconnector/ecconnector.go: the main loop of the connector, one function from its state to the next
-- for each case of the `select`. Each event that makes a request comes with the exchange of it.
pub mod NewHead
mod Witnesses
use ecgeth.Base.{
  ℕ, ◌+◌, Bool, true, false, Option, none, some, List, [], ◌∷◌, String, Hash, Address, Bytes,
  if◌then◌else◌, is_nil,
}
use ecgeth.Types.Block.{Hashing, Block, block_hash, number_u64, get_header}
use ecgeth.Ecpon.Extra.{BlockProof, ExtraCodec, read_extra}
use ecgeth.Connector.Rpc.{
  Net, Exchange, RpcClient, RpcError, new_rpc_client, send_new_head, send_build_blk_result,
}

pub record UnconsumedNewHead : Type 0 where
  pub blkno : ℕ
  pub bhash : Hash
  pub bproof : Option BlockProof

-- The events that the loop waits for: the two timers, the batcher's report on a block, a new head of
-- the chain, the downloader's events, and the end of the loop. `quits` is both of its reasons.
pub data Event (Tx E : Type 0) : Type 0 where
  heartbeat resend : (String → Bytes → Exchange) → Event Tx E
  build_failed : (String → Bytes → Exchange) → E → Event Tx E
  mined new_head : (String → Bytes → Exchange) → Block Tx → Event Tx E
  sync_started sync_failed sync_done quits : Event Tx E

-- The state of the loop: that of `EcConnector` which it touches, the batcher's status and coinbase,
-- and the loop's own variables. `starts` counts the messages to the batcher's channel `startCh`;
-- `listens` is whether it still gets the downloader's events, `runs` whether it has not returned.
pub record LoopState (Tx : Type 0) : Type 0 where
  pub client : RpcClient
  pub usnewhead : Option UnconsumedNewHead
  pub cblock : Option (Block Tx)
  pub r_blk_no : ℕ
  pub coinbase : Address
  pub batcher_coinbase : Address
  pub running : Bool
  pub starts : ℕ
  pub listens : Bool
  pub runs : Bool

module _ {Tx Receipt : Type 0} (k : Hashing Tx Receipt) (codec : ExtraCodec) where
  unfoldable pub head_of : Block Tx → UnconsumedNewHead
  head_of b = record {
    blkno = number_u64 b;
    bhash = (block_hash k b).0;
    bproof = (read_extra codec (get_header b)).proof;
  }

module _ {Tx : Type 0} (net : Net) where
  -- `SendNewHead`, and what is kept for the timer if it fails.
  unfoldable pub send_head :
      (String → Bytes → Exchange) → UnconsumedNewHead → LoopState Tx → LoopState Tx
  send_head post u s =
      let (answer, client) = send_new_head net post u.blkno u.bhash u.bproof s.client in
      record s { client = client; usnewhead = if is_nil answer then none else some u }

  unfoldable pub resend_head :
      (String → Bytes → Exchange) → Option UnconsumedNewHead → LoopState Tx → LoopState Tx
  unfolding send_head
  resend_head post none s = s
  resend_head post (some u) s = send_head post u s

module _ {Tx : Type 0} where
  -- `Start` up to the loop's first heartbeat.
  unfoldable pub start_connector : String → Address → (String → Bytes → Exchange) → LoopState Tx
  start_connector url coinbase post = record {
    client = new_rpc_client url;
    usnewhead = none;
    cblock = none;
    r_blk_no = 0;
    coinbase = coinbase;
    batcher_coinbase = 0;
    running = true;
    starts = 1;
    listens = true;
    runs = true;
  }

  -- `SetEtherbase` of the connector.
  unfoldable pub set_connector_etherbase : Address → LoopState Tx → LoopState Tx
  set_connector_etherbase addr s = record s { coinbase = addr; batcher_coinbase = addr }

  -- `SetEtherbase` and `startBatching`, after a sync.
  unfoldable pub restart : LoopState Tx → LoopState Tx
  unfolding set_connector_etherbase
  restart s = record (set_connector_etherbase s.coinbase s) {
    running = true;
    starts = s.starts + 1;
  }

module _ {Tx Receipt E : Type 0} (k : Hashing Tx Receipt) (codec : ExtraCodec) (net : Net) where
  unfoldable pub handle_event : Event Tx E → LoopState Tx → LoopState Tx
  unfolding resend_head restart
  handle_event (heartbeat post) s = s
  handle_event (resend post) s = resend_head net post s.usnewhead s
  handle_event (build_failed post e) s = record s {
    client = (send_build_blk_result net post s.r_blk_no 0 0 (some e) s.client).1;
  }
  handle_event (mined post b) s =
      let (hash, b') = block_hash k b in
      record s {
        cblock = some b';
        client =
            (send_build_blk_result net post {E = E} s.r_blk_no (number_u64 b) hash none s.client).1;
      }
  handle_event (new_head post b) s =
      let sent = send_head net post (head_of k codec b) s in
      if (read_extra codec (get_header b)).failed then s else sent
  handle_event sync_started s = if s.listens then record s { running = false } else s
  handle_event sync_failed s = if s.listens then restart s else s
  handle_event sync_done s = if s.listens then record (restart s) { listens = false } else s
  handle_event quits s = record s { running = false; runs = false }

  -- The round of the loop, which ends when the loop has returned.
  unfoldable pub loop_step : Event Tx E → LoopState Tx → LoopState Tx
  unfolding handle_event
  loop_step e s = let next = handle_event e s in if s.runs then next else s

  -- The state after some events, the latest first.
  unfoldable pub after_events : LoopState Tx → List (Event Tx E) → LoopState Tx
  after_events start [] = start
  after_events start (e ∷ es) = loop_step e (after_events start es)
