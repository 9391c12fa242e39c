-- ===== src/Cmd/Config/Memory.antt =====
-- cmd/utils/flags.go: the caches in `SetEthConfig`. The trigger of the garbage collector is left out.
pub mod Budget
use ecgeth.Base.{
  ℕ, ◌+◌, ◌*◌, ◌/◌, Bool, true, false, ◌||◌, not, ltb, Option, none, some, String, if◌then◌else◌,
}
use ecgeth.Base.Int.{ℤ, pos, ◌+ℤ◌, ◌*ℤ◌, quotient, int64, ltb_ℤ}
use ecgeth.Cmd.Config.{
  Values, is_set, set_int, EthConfig, SyncSetting, full_mode, fast_mode, snap_mode, light_mode,
}

-- A third of the memory in megabytes, of at most 2 GB where an address has 32 bits. The total is a
-- `uint64`, so that the third of its megabytes is in an `int`.
unfoldable pub allowance : Bool → ℕ → ℕ
allowance is_32bit total =
    let low = if ltb (2 * 1024 * 1024 * 1024) total then 2 * 1024 * 1024 * 1024 else total in
    (if is_32bit then low else total) / 1024 / 1024 / 3

-- `cache * percent / 100`
unfoldable pub share : ℤ → ℤ → ℤ
share cache percent = quotient (int64 (cache *ℤ percent)) 100

module _ {F : Type 0} where
  -- The flag for the cache is capped, if the size of the memory is known.
  unfoldable pub cap_cache : Bool → Option ℕ → Values F → Values F
  unfolding set_int
  cap_cache is_32bit none v = v
  cap_cache is_32bit (some total) v =
      let most = pos (allowance is_32bit total) in
      let capped = set_int "cache" most v in if ltb_ℤ most (v.int "cache") then capped else v

  -- The share of the cache for a flag, if this or the cache is set.
  unfoldable pub share_of : Values F → String → ℤ → ℤ
  share_of v name old =
      if is_set v "cache" || is_set v name then share (v.int "cache") (v.int name) else old

module _ {G F : Type 0} where
  unfoldable pub set_caches : Values F → EthConfig G F → EthConfig G F
  set_caches v cfg = record cfg {
    database_cache = share_of v "cache.database" cfg.database_cache;
    trie_clean_cache = share_of v "cache.trie" cfg.trie_clean_cache;
    trie_dirty_cache = share_of v "cache.gc" cfg.trie_dirty_cache;
    snapshot_cache = share_of v "cache.snapshot" cfg.snapshot_cache;
  }

  -- Without snapshots their cache is that of the clean tries, unless the mode needs them.
  abbrev pub without_snapshots : SyncSetting → EthConfig G F → EthConfig G F
  without_snapshots snap_mode cfg = cfg
  without_snapshots _ cfg = record cfg {
    trie_clean_cache = int64 (cfg.trie_clean_cache +ℤ cfg.snapshot_cache);
    snapshot_cache = pos 0;
  }

  unfoldable pub set_snapshots : Values F → EthConfig G F → EthConfig G F
  set_snapshots v cfg =
      let without = without_snapshots cfg.sync_mode cfg in
      if v.bool "snapshot" then cfg else without
