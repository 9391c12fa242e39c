-- ===== src/Eth/Backend/Caches.antt =====
-- eth/backend.go: the caches that `New` allocates.
use ecgeth.Base.{ℕ, ◌+◌, ◌≤◌, ◌≡◌, ◌&&◌, ltb, true, false, choose, arith}
use ecgeth.Eth.Backend.{CacheSizes, sanitize_caches}

abbrev pub total : CacheSizes → ℕ
total c = c.trie_clean + c.trie_dirty + c.snapshot

abbrev IsFair : CacheSizes → CacheSizes → Type 0
IsFair c r =
    (c.no_pruning ≡ true → r.trie_dirty ≡ 0)
    × (c.no_pruning ≡ false → r ≡ c)
    × (total r ≤ total c)
    × (total c ≤ total r + 1)
    × (c.trie_clean ≤ r.trie_clean)
    × (c.snapshot ≤ r.snapshot)
    × (c.snapshot ≡ 0 → r.snapshot ≡ 0)

-- Without pruning `New` leaves no cache for dirty nodes, and gives its memory to the other two caches,
-- of which none gets smaller: all but at most one megabyte, which the two divisions may lose. A
-- snapshot cache is never turned on by that. With pruning the caches stay as they are.
pub sanitize_caches-total :
    (c : CacheSizes)
    → (c.no_pruning ≡ true → (sanitize_caches c).trie_dirty ≡ 0)
      × (c.no_pruning ≡ false → sanitize_caches c ≡ c)
      × (total (sanitize_caches c) ≤ total c)
      × (total c ≤ total (sanitize_caches c) + 1)
      × (c.trie_clean ≤ (sanitize_caches c).trie_clean)
      × (c.snapshot ≤ (sanitize_caches c).snapshot)
      × (c.snapshot ≡ 0 → (sanitize_caches c).snapshot ≡ 0)
unfolding sanitize_caches
sanitize_caches-total c =
    let P = IsFair c in
    choose P (c.no_pruning && ltb 0 c.trie_dirty) _ _
      (λ given. choose P (ltb 0 c.snapshot) _ _ (λ shared. ground arith) (λ off. ground arith))
      (λ kept. ground arith)
