-- ===== src/Connector/Rpc/Replies.antt =====
-- ecconnector/ecrpcclient.go: when `SendNewHead` reports a success.
use Prim.Native.String.{◌++◌}
use ecgeth.Base.{
  ℕ, ◌≡◌, true, Option, none, some, String, Hash, Bytes, arith, Option-cases, ◌↔◌, inl, inr,
}
use ecgeth.Ecpon.Extra.{BlockProof}
use ecgeth.Connector.Rpc.{Net, Exchange, RpcClient, new_head_path, send_new_head}
use ecgeth.Connector.Rpc.Cache.{accepts}

module _ (net : Net) (post : String → Bytes → Exchange) where
  -- `SendNewHead` reports success exactly if the block could be encoded, the address is one, and the
  -- external consensus answered the request for this block with a success.
  pub send_new_head_iff :
      (n : ℕ) (h : Hash) (p : Option BlockProof) (r : RpcClient)
      → ((send_new_head net post n h p r).0 ≡ none) ↔ (
          (body : Bytes) × (net.marshal_block
              (record { blockno = n; bhash = net.hex h; bproof = p })
            ≡ some body)
          × (net.is_url (r.url ++ new_head_path) ≡ true)
          × (accepts (post (r.url ++ new_head_path) body) ≡ true))
  unfolding send_new_head
  send_new_head_iff n h p r = (
    (λ e.
        elim (Option-cases
          (net.marshal_block (record { blockno = n; bhash = net.hex h; bproof = p }))) [
            | inl no_json ↦ absurd (ground arith)
            | inr (body, json) ↦ (body, json, ground arith, ground arith)
          ]),
    λ (body, json, url, yes'). ground arith,
  )
