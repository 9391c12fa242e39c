-- ===== src/Connector/Rpc/Cache.antt =====
-- ecconnector/ecrpcclient.go: `SendVerifySeal` answers from its cache only what the external
-- consensus has accepted.
use Prim.Native.String.{◌++◌}
use text.Mathlib.TextPositions.{eq_refl}
use ecgeth.Base.{
  ℕ, ◌≡◌, ◌≢◌, ◌⊎◌, inl, inr, refl, ◌∙◌, subst, Bool, true, false, Option, none, some, List, [],
  ◌∷◌, String, Hash, Bytes, arith, Bool-cases, Option-cases,
}
use ecgeth.Ecpon.Extra.{BlockProof}
use ecgeth.Connector.Rpc.{
  Net, Exchange, unsent, response, RpcClient, RpcError, CacheSendVerifySeal, BlockParam,
  new_rpc_client, verify_seal_path, is_ok, is_cached, bytes_equal, deliver, body_error, seal_body,
  send_verify_seal, send_new_head, send_build_blk_result, or_empty,
}

bytes_equal→eq : (xs ys : Bytes) → bytes_equal xs ys ≡ true → xs ≡ ys
bytes_equal→eq [] [] h = refl
bytes_equal→eq [] (y ∷ ys) h = cc
bytes_equal→eq (x ∷ xs) [] h = cc
bytes_equal→eq (x ∷ xs) (y ∷ ys) h = ground (arith, bytes_equal→eq xs ys)

bytes_equal_refl : (xs : Bytes) → bytes_equal xs xs ≡ true
bytes_equal_refl [] = refl
bytes_equal_refl (x ∷ xs) = ground (arith, bytes_equal_refl xs)

abbrev pub accepts : Exchange → Bool
accepts unsent = false
accepts (response code status body) = is_ok code

-- The calls of a client, each with the network as it is at the time.
pub data Call : Type 0 where
  verify : (String → Bytes → Exchange) → ℕ → Hash → Option BlockProof → Call
  new_head : (String → Bytes → Exchange) → ℕ → Hash → Option BlockProof → Call
  build_result : (String → Bytes → Exchange) → ℕ → ℕ → Hash → Option RpcError → Call

module _ (net : Net) where
  unfoldable pub perform : Call → RpcClient → RpcClient
  perform (verify post n h p) r = (send_verify_seal net post n h p r).1
  perform (new_head post n h p) r = (send_new_head net post n h p r).1
  perform (build_result post rn n h e) r = (send_build_blk_result net post rn n h e r).1

  -- The latest call comes first.
  unfoldable pub perform_all : List Call → RpcClient → RpcClient
  unfolding perform
  perform_all [] r = r
  perform_all (c ∷ earlier) r = perform c (perform_all earlier r)

-- In one of the calls the external consensus answered this body with a success.
abbrev pub Accepted : String → Bytes → List Call → Type 0
Accepted url body [] = ⊥
Accepted url body (verify post n h p ∷ earlier) =
    (accepts (post (url ++ verify_seal_path) body) ≡ true) ⊎ Accepted url body earlier
Accepted url body (new_head post n h p ∷ earlier) = Accepted url body earlier
Accepted url body (build_result post rn n h e ∷ earlier) = Accepted url body earlier

-- What encoding/json documents: the encoding of a struct is not empty.
abbrev pub NeverEmpty : Net → Type 0
NeverEmpty net = (p : BlockParam) (body : Bytes) → net.marshal_block p ≡ some body → body ≢ []

abbrev CacheIsSound : String → List Call → Option CacheSendVerifySeal → Type 0
CacheIsSound url calls none = Unit
CacheIsSound url calls (some c) = Accepted url c.bproof calls × (c.bproof ≢ [])

module _ (net : Net) (post : String → Bytes → Exchange) where
  deliver-accepts :
      (on_error : String → Option Bytes → RpcError) (url : String) (body : Bytes)
      → deliver net post on_error url body ≡ none
      → accepts (post url body) ≡ true
  unfolding deliver
  deliver-accepts on_error url body h = ground arith

  -- A successful call was answered from the cache, which stays, or by the external consensus, which
  -- goes to the cache.
  abbrev Answered : ℕ → Hash → Option BlockProof → RpcClient → Option CacheSendVerifySeal → Type 0
  Answered n h p r kept =
      ((is_cached r.cachesvs n (net.hex h) (or_empty (seal_body net n h p)) ≡ true)
        × (kept ≡ r.cachesvs))
      ⊎ ((body : Bytes) × (seal_body net n h p ≡ some body)
          × (accepts (post (r.url ++ verify_seal_path) body) ≡ true)
          × (kept ≡ some (record { blkno = n; bhash = net.hex h; bproof = body })))

  send_verify_seal-Answered :
      (n : ℕ) (h : Hash) (p : Option BlockProof) (r : RpcClient)
      → (send_verify_seal net post n h p r).0 ≡ none
      → Answered n h p r (send_verify_seal net post n h p r).1.cachesvs
  unfolding send_verify_seal
  send_verify_seal-Answered n h p r e =
      elim (Bool-cases (is_cached r.cachesvs n (net.hex h) (or_empty (seal_body net n h p)))) [
        | inl hit ↦ inl (hit, rw hit refl)
        | inr miss ↦ elim (Option-cases (seal_body net n h p)) [
          | inl no_json ↦ absurd (ground arith)
          | inr (body, json) ↦
              elim (Option-cases
                (deliver net post (body_error net post) (r.url ++ verify_seal_path) body)) [
                  | inl sent ↦ inr (
                    body,
                    json,
                    deliver-accepts (body_error net post) (r.url ++ verify_seal_path) body sent,
                    ground arith,
                  )
                  | inr (x, failed) ↦ absurd (ground arith)
                ]
        ]
      ]

  -- A call that fails leaves the cache as it was.
  send_verify_seal_error :
      (n : ℕ) (h : Hash) (p : Option BlockProof) (r : RpcClient) {e : RpcError}
      → (send_verify_seal net post n h p r).0 ≡ some e
      → (send_verify_seal net post n h p r).1.cachesvs ≡ r.cachesvs
  unfolding send_verify_seal
  send_verify_seal_error n h p r x = ground arith

  url-send_verify_seal :
      (n : ℕ) (h : Hash) (p : Option BlockProof) (r : RpcClient)
      → (send_verify_seal net post n h p r).1.url ≡ r.url
  unfolding send_verify_seal
  url-send_verify_seal n h p r = ground arith

module _ (net : Net) (url : String) where
  record Sound (calls : List Call) (r : RpcClient) : Type 0 where
    at_url : r.url ≡ url
    cached : CacheIsSound url calls r.cachesvs

  Sound-later :
      (c : Call) (calls : List Call) (m : Option CacheSendVerifySeal)
      → CacheIsSound url calls m
      → CacheIsSound url (c ∷ calls) m
  Sound-later c calls none s = tt
  Sound-later (verify post n h p) calls (some m) s = (inr s.0, s.1)
  Sound-later (new_head post n h p) calls (some m) s = s
  Sound-later (build_result post rn n h e) calls (some m) s = s

  -- What a hit in a sound cache says.
  hit-Accepted :
      (calls : List Call) (m : Option CacheSendVerifySeal) (n : ℕ) (t : String)
      (json : Option Bytes)
      → CacheIsSound url calls m
      → is_cached m n t (or_empty json) ≡ true
      → (body : Bytes) × (json ≡ some body) × Accepted url body calls
  hit-Accepted calls none n t json s hit = cc
  hit-Accepted calls (some m) n t none s hit =
      absurd (s.1 (bytes_equal→eq m.bproof [] (ground arith)))
  hit-Accepted calls (some m) n t (some body) s hit = (
    body,
    refl,
    subst (λ b. Accepted url b calls) (bytes_equal→eq m.bproof body (ground arith)) s.0,
  )

  encoded-ne-empty :
      (n : ℕ) (h : Hash) (p : Option BlockProof) (body : Bytes)
      → NeverEmpty net
      → seal_body net n h p ≡ some body
      → body ≢ []
  unfolding seal_body
  encoded-ne-empty n h p body ne json = ne _ body json

  verify-Sound :
      (post : String → Bytes → Exchange) (n : ℕ) (h : Hash) (p : Option BlockProof)
      (calls : List Call) (r : RpcClient)
      → NeverEmpty net
      → Sound calls r
      → CacheIsSound url (verify post n h p ∷ calls) (send_verify_seal net post n h p r).1.cachesvs
  verify-Sound post n h p calls r ne s =
      let same = Sound-later (verify post n h p) calls r.cachesvs s.cached in
      let keep = CacheIsSound url (verify post n h p ∷ calls) in
      elim (Option-cases (send_verify_seal net post n h p r).0) [
        | inr (e, failed) ↦ rw (send_verify_seal_error net post n h p r failed) same
        | inl fine ↦ elim (send_verify_seal-Answered net post n h p r fine) [
          | inl (hit, kept) ↦ rw kept same
          | inr (body, json, yes', kept) ↦
              rw kept (inl (rw s.at_url at yes'), encoded-ne-empty n h p body ne json)
        ]
      ]

  perform-Sound :
      (c : Call) (calls : List Call) (r : RpcClient)
      → NeverEmpty net
      → Sound calls r
      → Sound (c ∷ calls) (perform net c r)
  unfolding perform send_new_head send_build_blk_result
  perform-Sound (verify post n h p) calls r ne s = record {
    at_url = url-send_verify_seal net post n h p r ∙ s.at_url;
    cached = verify-Sound post n h p calls r ne s;
  }
  perform-Sound (new_head post n h p) calls r ne s = record {
    at_url = s.at_url;
    cached = Sound-later (new_head post n h p) calls r.cachesvs s.cached;
  }
  perform-Sound (build_result post rn n h e) calls r ne s = record {
    at_url = s.at_url;
    cached = Sound-later (build_result post rn n h e) calls r.cachesvs s.cached;
  }

  perform_all-Sound :
      (calls : List Call)
      → NeverEmpty net
      → Sound calls (perform_all net calls (new_rpc_client url))
  unfolding perform_all new_rpc_client
  perform_all-Sound [] ne = record { at_url = refl; cached = tt }
  perform_all-Sound (c ∷ calls) ne =
      perform-Sound c calls (perform_all net calls (new_rpc_client url)) ne
        (perform_all-Sound calls ne)

  -- Whenever `SendVerifySeal` reports success, after any calls of a new client, the request for this
  -- number, hash and proof was encoded, and the external consensus answered that very body with a
  -- success, now or in an earlier call. JSON is assumed not to encode a struct as no bytes.
  pub send_verify_seal-Accepted :
      (calls : List Call) (post : String → Bytes → Exchange) (n : ℕ) (h : Hash)
      (p : Option BlockProof)
      → NeverEmpty net
      → (send_verify_seal net post n h p (perform_all net calls (new_rpc_client url))).0 ≡ none
      → (body : Bytes) × (seal_body net n h p ≡ some body)
        × Accepted url body (verify post n h p ∷ calls)
  send_verify_seal-Accepted calls post n h p ne fine =
      let r = perform_all net calls (new_rpc_client url) in
      let s = perform_all-Sound calls ne in
      elim (send_verify_seal-Answered net post n h p r fine) [
        | inl (hit, kept) ↦
            let (body, json, accepted) =
              hit-Accepted calls r.cachesvs n (net.hex h) (seal_body net n h p) s.cached hit in
            (body, json, inr accepted)
        | inr (body, json, accepted, kept) ↦ (body, json, inl (rw s.at_url at accepted))
      ]

module _ (net : Net) where
  -- After a success the same question is answered with a success, whatever the network does.
  pub send_verify_seal_again :
      (post later : String → Bytes → Exchange) (n : ℕ) (h : Hash) (p : Option BlockProof)
      (r : RpcClient)
      → (send_verify_seal net post n h p r).0 ≡ none
      → (send_verify_seal net later n h p (send_verify_seal net post n h p r).1).0 ≡ none
  unfolding send_verify_seal
  send_verify_seal_again post later n h p r fine =
      elim (send_verify_seal-Answered net post n h p r fine) [
        | inl (hit, kept) ↦ rw (kept, hit) refl
        | inr (body, json, accepted, kept) ↦
            rw (kept, json) (ground (arith, eq_refl (net.hex h), bytes_equal_refl body))
      ]
