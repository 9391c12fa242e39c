-- ===== src/Eth/Backend/Mining.antt =====
-- eth/backend.go: the start and the stop of the miner.
use ecgeth.Base.{ℕ, ◌==◌, Bool, true, false, not, Option, none, some, List, Address, if◌then◌else◌}
use ecgeth.Base.Int.{pos, negsuc}
use ecgeth.Eth.Backend.{
  set_threads, set_gas_price, authorize, miner_start, miner_stop, Ethereum, BackendError, no_miner,
  no_etherbase, no_signer, is_clique, call, find_etherbase,
}

-- An error, or none, and the service, which keeps what was changed before the error.
abbrev pub Result : Type 0 → Type 0
Result P = Option BackendError × Ethereum P

module _ {P : Type 0} where
  -- `Authorize` for an engine that signs, if the wallet of the account is found.
  abbrev authorized : Bool → Address → Ethereum P → Result P
  authorized found a s =
      if is_clique s.engine
      then (if found then (none, call (authorize a) s) else (some no_signer, s))
      else (none, s)

  abbrev run_miner : Address → Result P → Result P
  run_miner a (some e, s) = (some e, s)
  run_miner a (none, s) =
      (none, call (miner_start a) (record s { accept_txs = true; is_mining = true }))

  abbrev start_miner : (Address → Bool) → Option Address × Ethereum P → Result P
  start_miner finds (none, s) = (some no_etherbase, s)
  start_miner finds (some a, s) = run_miner a (authorized (finds a) a s)

  -- Zero threads are none; the engine may have no threads to set.
  abbrev with_threads : Bool → ℕ → Ethereum P → Ethereum P
  with_threads threaded n s =
      if threaded then call (set_threads (if n == 0 then negsuc 0 else pos n)) s else s

  -- `StartMining`, for an engine that has threads or not, with the wallets, and whether that of an
  -- account is found.
  unfoldable pub start_mining :
      Bool → List (List Address) → (Address → Bool) → ℕ → Ethereum P → Result P
  unfolding find_etherbase
  start_mining threaded wallets finds threads s =
      let s' = with_threads threaded threads s in
      let found = find_etherbase wallets (call (set_gas_price s.gas_price) s') in
      if not s.has_miner
      then (some no_miner, s)
      else if s.is_mining
      then (none, s')
      else start_miner finds found

  unfoldable pub stop_mining : Bool → Ethereum P → Ethereum P
  stop_mining threaded s =
      let s' = if threaded then call (set_threads (negsuc 0)) s else s in
      if s.has_miner then call miner_stop (record s' { is_mining = false }) else s'
