-- ===== src/Eth/TxSync/Run/Kept.antt =====
-- eth/sync.go: what each part of a step of `txsyncLoop64` keeps.
use ecgeth.Base.{
  ℕ, ◌<◌, ◌≡◌, refl, sym, ap, ◌∙◌, subst, ◌==◌, ==_iff, leb, Bool, true, false, Option, none, some,
  List, [], ◌++◌, append_assoc, Hash, arith, Bool-cases, inl, inr,
}
use ecgeth.Eth.TxSync.{TxSync, TxSyncLoop, set_at, eth65, pack_done}
use ecgeth.Eth.TxSync.Run.{Run, noted}
use ecgeth.Eth.TxSync.Run.Sends.{rest_of, Sent}

pub young_enough : (n : ℕ) → n < eth65 → leb eth65 n ≡ false
young_enough n lt = ground arith

pub at_hit : {A : Type 0} (i j : ℕ) (x : A) (f : ℕ → A) → (i == j) ≡ true → set_at i x f j ≡ x
at_hit i j x f e = rw e refl

pub at_miss : {A : Type 0} (i j : ℕ) (x : A) (f : ℕ → A) → (i == j) ≡ false → set_at i x f j ≡ f j
at_miss i j x f e = rw e refl

module _ {Tx : Type 0} (hash_of : Tx → Hash) (size_of : Tx → ℕ) where
  abbrev version_or : Option (TxSync Tx) → ℕ
  version_or none = 0
  version_or (some x) = x.version

  abbrev pub Kept : Option (TxSync Tx) → List Tx → List Tx → Bool → Type 0
  Kept pending sent queued failed =
      failed ≡ false → sent ++ rest_of hash_of size_of pending ≡ queued

  pub record IsKept (r : Run Tx) : Type 0 where
    pub old_version : (i : ℕ) (x : TxSync Tx) → r.loop.pending i ≡ some x → x.version < eth65
    pub idle : r.loop.sending ≡ false → (i : ℕ) → r.loop.pending i ≡ none
    pub complete : (i : ℕ) → Kept (r.loop.pending i) (r.sent i) (r.queued i) (r.failed i)

  -- The sync of one peer is replaced by what a send has left of it.
  pub send-IsKept :
      (i : ℕ) (x : TxSync Tx) (l loop : TxSyncLoop Tx) (before : List Tx)
      (queued sent : ℕ → List Tx) (failed : ℕ → Bool)
      → Sent hash_of size_of i x l loop
      → x.version < eth65
      → ((j : ℕ) (y : TxSync Tx) → (i == j) ≡ false → l.pending j ≡ some y → y.version < eth65)
      → (failed i ≡ false → before ++ x.txs ≡ queued i)
      → ((j : ℕ) → (i == j) ≡ false → Kept (l.pending j) (sent j) (queued j) (failed j))
      → IsKept (record {
        loop = loop;
        queued = queued;
        sent = set_at i (before ++ loop.pack_txs) sent;
        failed = failed;
      })
  send-IsKept i x l loop before queued sent failed s old others this those =
      let pending_at = λ (j : ℕ). ap (λ f. f j) s.pending in
      let v = before ++ loop.pack_txs in
      record {
        old_version = λ j y e. elim (Bool-cases (i == j)) [
          | inl hit ↦
              let in_left = sym (pending_at j ∙ at_hit i j s.left l.pending hit) ∙ e in
              subst (λ n. n < eth65) (sym (s.version y in_left)) old
          | inr miss ↦ others j y miss (sym (pending_at j ∙ at_miss i j s.left l.pending miss) ∙ e)
        ];
        idle = λ e. absurd (cc (e, s.busy));
        complete = λ j. elim (Bool-cases (i == j)) [
          | inl hit ↦ λ f.
              let same = (==_iff i j).0 hit in
              ap (λ t. t ++ rest_of hash_of size_of (loop.pending j)) (at_hit i j v sent hit)
              ∙ ap (λ o. v ++ rest_of hash_of size_of o)
                  (pending_at j ∙ at_hit i j s.left l.pending hit)
              ∙ append_assoc before loop.pack_txs (rest_of hash_of size_of s.left)
              ∙ ap (λ t. before ++ t) s.parts
              ∙ this (ap failed same ∙ f)
              ∙ ap queued same
          | inr miss ↦ λ f.
              ap (λ t. t ++ rest_of hash_of size_of (loop.pending j)) (at_miss i j v sent miss)
              ∙ ap (λ o. sent j ++ rest_of hash_of size_of o)
                  (pending_at j ∙ at_miss i j s.left l.pending miss)
              ∙ those j miss f
        ];
      }

  pub pack_done-Kept :
      (fails : Bool) (r : Run Tx) (i : ℕ)
      → IsKept r
      → Kept
          ((pack_done hash_of size_of fails r.loop).pending i)
          (r.sent i)
          (r.queued i)
          (noted hash_of size_of fails r i)
  unfolding pack_done
  pack_done-Kept false r i k = k.complete i
  pack_done-Kept true r i k = elim (Bool-cases (r.loop.pack_peer == i)) [
    | inl hit ↦ λ f. absurd (cc (f, at_hit r.loop.pack_peer i true r.failed hit))
    | inr miss ↦ rw miss (k.complete i)
  ]

  pub pack_done-old :
      (fails : Bool) (r : Run Tx) (i : ℕ) (y : TxSync Tx)
      → IsKept r
      → (pack_done hash_of size_of fails r.loop).pending i ≡ some y
      → y.version < eth65
  unfolding pack_done
  pack_done-old false r i y k e = k.old_version i y e
  pack_done-old true r i y k e = elim (Bool-cases (r.loop.pack_peer == i)) [
    | inl hit ↦ absurd (cc (rw hit at e))
    | inr miss ↦ k.old_version i y (rw miss at e)
  ]

  -- An arrival replaces what was pending for the peer.
  pub queue-IsKept :
      (i : ℕ) (x : TxSync Tx) (r : Run Tx)
      → x.version < eth65
      → IsKept r
      → r.loop.sending ≡ true
      → IsKept (record {
        loop = record r.loop { pending = set_at i (some x) r.loop.pending };
        queued = set_at i x.txs r.queued;
        sent = set_at i [] r.sent;
        failed = set_at i false r.failed;
      })
  queue-IsKept i x r old k busy = record {
    old_version = λ j y e. elim (Bool-cases (i == j)) [
      | inl hit ↦ subst (λ n. n < eth65) (ap version_or (rw hit at e)) old
      | inr miss ↦ k.old_version j y (rw miss at e)
    ];
    idle = λ e. absurd (cc (e, busy));
    complete = λ j. elim (Bool-cases (i == j)) [
      | inl hit ↦ rw hit (λ f. refl)
      | inr miss ↦ rw miss (k.complete j)
    ];
  }
