-- ===== src/Eth/Handler.antt =====
-- eth/handler.go: what `newHandler` sets up, and the fetcher's `inserter`.
pub mod Start
pub mod Admit
pub mod Cast
mod Witnesses
use ecgeth.Base.{
  ℕ, ◌+◌, ◌-◌, ◌*◌, ◌%◌, ◌==◌, ltb, Bool, true, false, not, ◌&&◌, Option, none, some, Hash, u64_mod,
  if◌then◌else◌,
}
use ecgeth.Params.Checkpoint.{TrustedCheckpoint}
use ecgeth.Eth.Sync.{SyncMode, full_sync, fast_sync, snap_sync, SyncFlags}
use ecgeth.Eth.Sync.Loop.{Inserted}

-- `handlerConfig`, as far as it decides something: the heads are those of the chain's `CurrentBlock`
-- and `CurrentFastBlock`; the limit of transactions to look up is the chain's, and the stored one.
pub record HandlerConfig : Type 0 where
  pub sync : SyncMode
  pub checkpoint : Option TrustedCheckpoint
  pub current_number : ℕ
  pub fast_number : ℕ
  pub tx_lookup_limit : ℕ
  pub stored_limit : Option ℕ

pub record Handler : Type 0 where
  pub flags : SyncFlags
  pub checkpoint_number : ℕ
  pub checkpoint_hash : Hash
  pub has_state_bloom : Bool

-- The flags for the fast sync and for the snap protocol. The fourth mode, that of light clients, has
-- another handler: eth/backend.go refuses it.
unfoldable pub sync_flags : SyncMode → ℕ → ℕ → Bool × Bool
sync_flags full_sync current fast = (current == 0 && ltb 0 fast, false)
sync_flags fast_sync current fast = (not (ltb 0 current), false)
sync_flags snap_sync current fast = (not (ltb 0 current), not (ltb 0 current))

-- `(SectionIndex+1)*params.CHTFrequency - 1` on 64 bits, and the head of the section.
unfoldable pub checkpoint_of : ℕ → Option TrustedCheckpoint → ℕ × Hash
checkpoint_of cht_frequency none = (0, 0)
checkpoint_of cht_frequency (some c) =
    (((c.section_index + 1) * cht_frequency + u64_mod - 1) % u64_mod, c.section_head)

-- `params.CHTFrequency` is the first argument.
unfoldable pub new_handler : ℕ → HandlerConfig → Handler
unfolding sync_flags checkpoint_of
new_handler cht_frequency config =
    let flags = sync_flags config.sync config.current_number config.fast_number in
    let checkpoint = checkpoint_of cht_frequency config.checkpoint in
    record {
      flags = record {
        fast_sync = flags.0;
        snap_sync = flags.1;
        accept_txs = false;
        tx_lookup_limit = config.tx_lookup_limit;
        stored_limit = config.stored_limit;
      };
      checkpoint_number = checkpoint.0;
      checkpoint_hash = checkpoint.1;
      has_state_bloom = flags.0 && not flags.1;
    }

-- `inserter`, at the number of the current block and with what the chain would answer.
unfoldable pub inserter : ℕ → ℕ → Inserted → SyncFlags → Inserted × SyncFlags
inserter checkpoint current answer f =
    let accepted = record f { accept_txs = true } in
    if ltb current checkpoint
    then (record { count = 0; succeeds = true }, f)
    else if f.fast_sync
    then (record { count = 0; succeeds = true }, f)
    else if answer.succeeds
    then (answer, accepted)
    else (answer, f)
