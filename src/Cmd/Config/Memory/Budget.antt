-- ===== src/Cmd/Config/Memory/Budget.antt =====
-- cmd/utils/flags.go: how much of the cache is shared out.
use ecgeth.Base.{
  ℕ, ◌+◌, ◌-◌, ◌*◌, ◌/◌, ◌≡◌, ◌≤◌, ◌<◌, ◌^◌, refl, ◌∙◌, ap, true, ◌||◌, String, arith, leb, ltb,
  if_true, if_false, inl, inr, Bool-cases,
}
use ecgeth.Base.Int.{ℤ, pos, ◌+ℤ◌, ◌*ℤ◌, quotient, int64, unsigned}
use ecgeth.Cmd.Config.{
  Values, is_set, EthConfig, SyncSetting, full_mode, fast_mode, snap_mode, light_mode,
}
use ecgeth.Cmd.Config.Memory.{share, share_of, set_caches, set_snapshots, without_snapshots}

int64_pos : (n : ℕ) → n < 2 ^ 63 → int64 (pos n) ≡ pos n
int64_pos n small =
    let same : unsigned (pos n) ≡ n = omega (arith, small) in
    let low : ltb (unsigned (pos n)) (2 ^ 63) ≡ true = rw same (ground arith) in
    if_true _ _ _ low ∙ ap pos same

times_pos : (a b : ℕ) → pos a *ℤ pos b ≡ pos (a * b)
times_pos a b =
    let none' : leb (a * 0 + 0 * b) (a * b + 0 * 0) ≡ true = ground arith in
    if_true _ _ _ none' ∙ ap pos (omega arith)

plus_pos : (a b : ℕ) → pos a +ℤ pos b ≡ pos (a + b)
plus_pos a b = ground arith

share_pos : (c p : ℕ) → c * p < 2 ^ 63 → share (pos c) (pos p) ≡ pos (c * p / 100)
unfolding share
share_pos c p small =
    ap (λ z. quotient (int64 z) 100) (times_pos c p)
    ∙ ap (λ z. quotient z 100) (int64_pos (c * p) small)

shares_fit :
    (c a b d e : ℕ)
    → a + b + d + e ≤ 100
    → c * a / 100 + c * b / 100 + c * d / 100 + c * e / 100 ≤ c
shares_fit c a b d e fits =
    let full : a + b + d + e + (100 - (a + b + d + e)) ≡ 100 = omega (arith, fits) in
    omega (arith, ap (λ (t : ℕ). c * t) full)

part_small : (c a : ℕ) → a ≤ 100 → c * 100 < 2 ^ 63 → c * a < 2 ^ 63
part_small c a fits small =
    let full : a + (100 - a) ≡ 100 = omega (arith, fits) in
    omega (arith, small, ap (λ (t : ℕ). c * t) full)

-- The four caches are numbers whose sum is at most `most`.
pub record Fits {G F : Type 0} (most : ℕ) (cfg : EthConfig G F) : Type 0 where
  pub database : ℕ
  pub clean : ℕ
  pub dirty : ℕ
  pub snapshot : ℕ
  pub database_is : cfg.database_cache ≡ pos database
  pub clean_is : cfg.trie_clean_cache ≡ pos clean
  pub dirty_is : cfg.trie_dirty_cache ≡ pos dirty
  pub snapshot_is : cfg.snapshot_cache ≡ pos snapshot
  pub within : database + clean + dirty + snapshot ≤ most

-- The flags for the cache: it is set to `c`, and the four shares are at most 100 percent.
pub record Shares {F : Type 0} (v : Values F) (c : ℕ) : Type 0 where
  pub set : is_set v "cache" ≡ true
  pub cache : v.int "cache" ≡ pos c
  pub a : ℕ
  pub b : ℕ
  pub d : ℕ
  pub e : ℕ
  pub for_database : v.int "cache.database" ≡ pos a
  pub for_clean : v.int "cache.trie" ≡ pos b
  pub for_dirty : v.int "cache.gc" ≡ pos d
  pub for_snapshot : v.int "cache.snapshot" ≡ pos e
  pub fits : a + b + d + e ≤ 100
  pub small : c * 100 < 2 ^ 63

module _ {F : Type 0} where
  share_of_pos :
      (v : Values F) (name : String) (old : ℤ) (c p : ℕ)
      → is_set v "cache" ≡ true
      → v.int "cache" ≡ pos c
      → v.int name ≡ pos p
      → c * p < 2 ^ 63
      → share_of v name old ≡ pos (c * p / 100)
  unfolding share_of
  share_of_pos v name old c p set cache percent small =
      if_true _ _ _ (ap (λ x. x || is_set v name) set)
      ∙ ap (λ x. share x (v.int name)) cache
      ∙ ap (share (pos c)) percent
      ∙ share_pos c p small

  set_caches-Fits :
      {G : Type 0} (v : Values F) (cfg : EthConfig G F) (c : ℕ)
      → Shares v c
      → Fits c (set_caches v cfg)
  unfolding set_caches
  set_caches-Fits v cfg c s = record {
    database = c * s.a / 100;
    clean = c * s.b / 100;
    dirty = c * s.d / 100;
    snapshot = c * s.e / 100;
    database_is =
        share_of_pos v _ _ c s.a s.set s.cache s.for_database
          (part_small c s.a (omega (arith, s.fits)) s.small);
    clean_is =
        share_of_pos v _ _ c s.b s.set s.cache s.for_clean
          (part_small c s.b (omega (arith, s.fits)) s.small);
    dirty_is =
        share_of_pos v _ _ c s.d s.set s.cache s.for_dirty
          (part_small c s.d (omega (arith, s.fits)) s.small);
    snapshot_is =
        share_of_pos v _ _ c s.e s.set s.cache s.for_snapshot
          (part_small c s.e (omega (arith, s.fits)) s.small);
    within = shares_fit c s.a s.b s.d s.e s.fits;
  }

module _ {G F : Type 0} where
  merged-Fits :
      (most : ℕ) (cfg : EthConfig G F)
      → most < 2 ^ 63
      → Fits most cfg
      → Fits most (record cfg {
        trie_clean_cache = int64 (cfg.trie_clean_cache +ℤ cfg.snapshot_cache);
        snapshot_cache = pos 0;
      })
  merged-Fits most cfg small f = record {
    database = f.database;
    clean = f.clean + f.snapshot;
    dirty = f.dirty;
    snapshot = 0;
    database_is = f.database_is;
    clean_is =
        ap (λ x. int64 (x +ℤ cfg.snapshot_cache)) f.clean_is
        ∙ ap (λ x. int64 (pos f.clean +ℤ x)) f.snapshot_is
        ∙ ap int64 (plus_pos f.clean f.snapshot)
        ∙ int64_pos (f.clean + f.snapshot) (omega (arith, f.within, small));
    dirty_is = f.dirty_is;
    snapshot_is = refl;
    within = omega (arith, f.within);
  }

  without_snapshots-Fits :
      (most : ℕ) (mode : SyncSetting) (cfg : EthConfig G F)
      → most < 2 ^ 63
      → Fits most cfg
      → Fits most (without_snapshots mode cfg)
  without_snapshots-Fits most snap_mode cfg small f = f
  without_snapshots-Fits most full_mode cfg small f = merged-Fits most cfg small f
  without_snapshots-Fits most fast_mode cfg small f = merged-Fits most cfg small f
  without_snapshots-Fits most light_mode cfg small f = merged-Fits most cfg small f

  -- The caches of a configuration with the cache set to `c`.
  pub set_snapshots-Fits :
      (v : Values F) (cfg : EthConfig G F) (c : ℕ)
      → Shares v c
      → Fits c (set_snapshots v (set_caches v cfg))
  unfolding set_snapshots
  set_snapshots-Fits v cfg c s =
      let shared = set_caches-Fits v cfg c s in
      let small : c < 2 ^ 63 = omega (arith, s.small) in
      elim (Bool-cases (v.bool "snapshot")) [
        | inl on ↦ rw (if_true _ _ _ on) shared
        | inr off ↦ rw (if_false _ _ _ off) (without_snapshots-Fits c _ _ small shared)
      ]
