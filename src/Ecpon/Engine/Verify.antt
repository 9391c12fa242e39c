-- ===== src/Ecpon/Engine/Verify.antt =====
-- consensus/ecpon/ecponbada.go: which headers `VerifyHeader` accepts, and the results of
-- `VerifyHeaders`.
use ecgeth.Base.{
  ℕ, suc, ◌+◌, ◌≡◌, ◌≤◌, ◌<◌, ◌≢◌, ◌⊎◌, ◌↔◌, inl, inr, refl, ap, sym, Bool, true, false, Option,
  none, some, List, [], ◌∷◌, map, ◌==◌, if◌then◌else◌, u64_mod, arith, take, length, Option-cases,
  Bool-cases,
}
use ecgeth.Types.Header.{Header}
use ecgeth.Types.Block.{big_uint64, calc_uncle_hash, header_hash}
use ecgeth.Ecpon.Extra.{ExtraData, read_extra}
use ecgeth.Ecpon.Rpc.{EcRpcCall}
use ecgeth.Ecpon.Engine.{
  Externals, lift_remote, ask_remote, verify_seal, verify_cascading_fields, verify_header,
  verify_headers,
}

module _ {S E : Type 0} where
  lift_remote-none : (r : Option E × S) → (lift_remote r).0 ≡ none ↔ r.0 ≡ none
  unfolding lift_remote
  lift_remote-none (none, s) = ((λ e. refl), (λ e. refl))
  lift_remote-none (some e, s) = ((λ e. cc), (λ e. cc))

module _ {Tx Receipt S E : Type 0} (x : Externals Tx Receipt) (rpc : Option (EcRpcCall S E)) where
  -- The external consensus is connected and accepts the proof in the header's extra data, for the
  -- header's number and hash.
  pub record IsSealed (h : Header) (s : S) : Type 0 where
    pub data1 : ExtraData
    pub client : EcRpcCall S E
    pub decoded : x.codec.decode h.extra ≡ some data1
    pub connected : rpc ≡ some client
    pub accepted :
        (client.send_verify_seal
          (big_uint64 h.number)
          (header_hash x.hashing h)
          data1.blk_proof
          s).0
        ≡ none

  abbrev answer : EcRpcCall S E → Header → ExtraData → S → Option E × S
  answer c h y s = c.send_verify_seal (big_uint64 h.number) (header_hash x.hashing h) y.blk_proof s

  -- `verifySeal` at a header that is no genesis, by what its extra data decodes to.
  verify_seal_unread :
      (h : Header) (s : S)
      → big_uint64 h.number ≢ 0
      → x.codec.decode h.extra ≡ none
      → (verify_seal x rpc h s).0 ≢ none
  unfolding verify_seal read_extra
  verify_seal_unread h s nz d = ground arith

  verify_seal_read :
      (h : Header) (s : S) (y : ExtraData)
      → big_uint64 h.number ≢ 0
      → x.codec.decode h.extra ≡ some y
      → verify_seal x rpc h s
        ≡ ask_remote rpc (big_uint64 h.number) (header_hash x.hashing h) y.blk_proof s
  unfolding verify_seal read_extra
  verify_seal_read h s y nz d = ground arith

  verify_seal_none :
      (h : Header) (s : S)
      → big_uint64 h.number ≢ 0
      → (verify_seal x rpc h s).0 ≡ none
      → IsSealed h s
  unfolding ask_remote
  verify_seal_none h s nz e = elim (Option-cases (x.codec.decode h.extra)) [
    | inl d ↦ absurd (verify_seal_unread h s nz d e)
    | inr (y, d) ↦ elim (Option-cases rpc) [
      | inl r ↦
          let unread = ap (λ t. t.0) (verify_seal_read h s y nz d) in
          cc (rw (e, r, ask_remote) at unread)
      | inr (c, r) ↦
          let read = ap (λ t. t.0) (verify_seal_read h s y nz d) in
          record {
            data1 = y;
            client = c;
            decoded = d;
            connected = r;
            accepted = (lift_remote-none (answer c h y s)).0 (sym (rw (e, r, ask_remote) at read));
          }
    ]
  ]

  IsSealed-verify_seal :
      (h : Header) (s : S)
      → big_uint64 h.number ≢ 0
      → IsSealed h s
      → (verify_seal x rpc h s).0 ≡ none
  unfolding ask_remote
  IsSealed-verify_seal h s nz k =
      rw (verify_seal_read h s k.data1 nz k.decoded, k.connected, ask_remote)
        ((lift_remote-none (answer k.client h k.data1 s)).1 k.accepted)

  -- What `VerifyHeader` asks of a header at the time `now`.
  pub record IsAccepted (now : ℕ) (h : Header) (s : S) : Type 0 where
    pub number_set : h.number ≢ none
    pub timely : h.time ≤ now + 2
    pub no_uncles : h.uncle_hash ≡ calc_uncle_hash x.hashing []
    pub forks_ok : x.fork_hashes_ok h ≡ true
    pub sealed : (big_uint64 h.number ≡ 0) ⊎ IsSealed h s

  cascading_iff :
      (h : Header) (s : S)
      → (verify_cascading_fields x rpc h s).0 ≡ none ↔ ((big_uint64 h.number ≡ 0) ⊎ IsSealed h s)
  unfolding verify_cascading_fields
  cascading_iff h s = elim (Bool-cases (big_uint64 h.number == 0)) [
    | inl z ↦ ((λ e. inl (ground arith)), (λ k. rw z refl))
    | inr nz ↦
        let ne : big_uint64 h.number ≢ 0 = ground arith in
        (
          (λ e. inr (verify_seal_none h s ne (rw nz at e))),
          λ k. elim k [
            | inl z ↦ absurd (ne z)
            | inr sealed ↦ rw nz (IsSealed-verify_seal h s ne sealed)
          ],
        )
  ]

  -- `VerifyHeader` accepts a header exactly if its number is set, its time is at most two seconds
  -- ahead, it has no uncles, the fork hashes are right, and it is block 0 (modulo 2^64) or the
  -- connected external consensus accepts the proof that its extra data decodes to.
  pub verify_header_iff :
      (now : ℕ) (h : Header) (s : S)
      → now + 2 < u64_mod
      → (verify_header x rpc now h s).0 ≡ none ↔ IsAccepted now h s
  unfolding verify_header
  verify_header_iff now h s small =
      let split = cascading_iff h s in
      (
        (λ e. record {
          number_set = ground arith;
          timely = ground arith;
          no_uncles = ground arith;
          forks_ok = ground arith;
          sealed = split.0 (ground arith);
        }),
        λ a. ground (arith, split.1 a.sealed, a.number_set, a.timely, a.no_uncles, a.forks_ok),
      )

  -- The results of `VerifyHeaders` when the reader never aborts.
  abbrev pub unaborted : List (Header × ℕ × Bool) → List (Header × ℕ × Bool)
  unaborted = map (λ (h, now, aborted). (h, now, false))

  -- How many headers come before the first at which the `abort` branch is taken.
  abbrev pub before_abort : List (Header × ℕ × Bool) → ℕ
  before_abort [] = 0
  before_abort ((h, now, aborted) ∷ rest) = if aborted then 0 else suc (before_abort rest)

  -- `VerifyHeaders` gives one result for each header if it is not aborted, and otherwise, in the
  -- same order, those of the headers before the abort.
  pub verify_headers_prefix :
      (hs : List (Header × ℕ × Bool)) (s : S)
      → ((verify_headers x rpc hs s).0
          ≡ take (before_abort hs) (verify_headers x rpc (unaborted hs) s).0)
        × (length (verify_headers x rpc (unaborted hs) s).0 ≡ length hs)
  unfolding verify_headers
  verify_headers_prefix [] s = (refl, refl)
  verify_headers_prefix ((h, now, true) ∷ rest) s =
      (refl, ap suc (verify_headers_prefix rest (verify_header x rpc now h s).1).1)
  verify_headers_prefix ((h, now, false) ∷ rest) s =
      let later = verify_headers_prefix rest (verify_header x rpc now h s).1 in
      (ap (λ vs. (verify_header x rpc now h s).0 ∷ vs) later.0, ap suc later.1)
