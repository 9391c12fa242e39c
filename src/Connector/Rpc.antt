-- ===== src/Connector/Rpc.antt =====
-- ecconnector/ecrpcclient.go: the client of the external consensus's REST interface. JSON, the hex
-- text of a hash and the HTTP exchange are those of Go's packages.
pub mod Cache
pub mod Replies
mod Witnesses
use Prim.Native.String.{◌++◌}
use text.Mathlib.Text.{◌==◌ as str_eq}
use ecgeth.Base.{
  ℕ, ◌≡◌, Bool, true, false, ◌&&◌, ◌||◌, Option, none, some, List, [], ◌∷◌, String, Hash, Bytes,
  ◌==◌, if◌then◌else◌,
}
use ecgeth.Ecpon.Extra.{BlockProof}
use ecgeth.Ecpon.Rpc.{EcRpcCall}

pub record EcError : Type 0 where
  pub code : String
  pub msg : String

pub record CacheSendVerifySeal : Type 0 where
  pub blkno : ℕ
  pub bhash : String
  pub bproof : Bytes

pub record BuildBlkRstParam : Type 0 where
  pub pblockno : ℕ
  pub nblockno : ℕ
  pub nbhash : String
  pub err_reason : String

pub record BlockParam : Type 0 where
  pub blockno : ℕ
  pub bhash : String
  pub bproof : Option BlockProof

-- The field `block` of the source is never used.
pub record RpcClient : Type 0 where
  pub blockno : ℕ
  pub bhash : String
  pub cachesvs : Option CacheSendVerifySeal
  pub url : String

-- What `client.Do` gives: a transport error, or a response with its code, its status line and its
-- body, which is `none` if it cannot be read.
pub data Exchange : Type 0 where
  unsent : Exchange
  response : ℕ → String → Option Bytes → Exchange

pub data RpcError : Type 0 where
  marshal_failed request_failed send_failed : RpcError
  unreadable_body bad_body status_only : String → RpcError
  refused : String → String → RpcError

-- The packages that the client calls; `none` is an error.
pub record Net : Type 0 where
  pub hex : Hash → String
  pub marshal_number : ℕ → Option Bytes
  pub marshal_build : BuildBlkRstParam → Option Bytes
  pub marshal_block : BlockParam → Option Bytes
  pub unmarshal_error : Bytes → Option EcError
  pub is_url : String → Bool

abbrev pub new_head_path : String
new_head_path = "/newhead"

abbrev pub verify_seal_path : String
verify_seal_path = "/verifyseal"

abbrev pub keep_alive_path : String
keep_alive_path = "/heartbeat"

abbrev pub build_blk_result_path : String
build_blk_result_path = "/buildblkresult"

unfoldable pub new_rpc_client : String → RpcClient
new_rpc_client url = record { blockno = 0; bhash = ""; cachesvs = none; url = url }

abbrev pub is_ok : ℕ → Bool
is_ok code = code == 200 || code == 201 || code == 204

abbrev pub bytes_equal : Bytes → Bytes → Bool
bytes_equal [] [] = true
bytes_equal (x ∷ xs) (y ∷ ys) = x == y && bytes_equal xs ys
bytes_equal _ _ = false

abbrev or_empty : Option Bytes → Bytes
or_empty none = []
or_empty (some bytes) = bytes

abbrev pub is_cached : Option CacheSendVerifySeal → ℕ → String → Bytes → Bool
is_cached none blockno bhash body = false
is_cached (some c) blockno bhash body =
    c.blkno == blockno && str_eq c.bhash bhash && bytes_equal c.bproof body

-- The JSON text of the request that `SendVerifySeal` makes.
unfoldable pub seal_body : Net → ℕ → Hash → Option BlockProof → Option Bytes
seal_body net blockno bhash bproof =
    net.marshal_block (record { blockno = blockno; bhash = net.hex bhash; bproof = bproof })

-- `post url body` is the exchange that a request gets at the time of the call.
module _ (net : Net) (post : String → Bytes → Exchange) where
  -- The error in the body of a response: of the heartbeat and of the seal's verification.
  body_error : String → Option Bytes → RpcError
  body_error status none = unreadable_body status
  body_error status (some body) = elim (net.unmarshal_error body) [
    | none ↦ bad_body status
    | some e ↦ refused status e.code
  ]

  -- The other two requests read the body and do not look at it.
  status_error : String → Option Bytes → RpcError
  status_error status none = unreadable_body status
  status_error status (some body) = status_only status

  read_response : (String → Option Bytes → RpcError) → Exchange → Option RpcError
  read_response on_error unsent = some send_failed
  read_response on_error (response code status body) =
      if is_ok code then none else some (on_error status body)

  -- From `http.NewRequest` to the end of a method.
  deliver : (String → Option Bytes → RpcError) → String → Bytes → Option RpcError
  unfolding read_response
  deliver on_error url body =
      if net.is_url url then read_response on_error (post url body) else some request_failed

  deliver_json : (String → Option Bytes → RpcError) → String → Option Bytes → Option RpcError
  unfolding deliver
  deliver_json on_error url none = some marshal_failed
  deliver_json on_error url (some body) = deliver on_error url body

  unfoldable pub send_keep_alive : RpcClient → Option RpcError
  unfolding deliver_json body_error
  send_keep_alive r =
      deliver_json body_error (r.url ++ keep_alive_path) (net.marshal_number r.blockno)

  -- The error `berr` of the caller is not part of the request.
  unfoldable pub send_build_blk_result :
      {E : Type 0} → ℕ → ℕ → Hash → Option E → RpcClient → Option RpcError × RpcClient
  unfolding deliver_json status_error
  send_build_blk_result rblkno blockno bhash berr r =
      let r' = record r { blockno = blockno; bhash = net.hex bhash } in
      let param : BuildBlkRstParam = record {
        pblockno = rblkno;
        nblockno = blockno;
        nbhash = net.hex bhash;
        err_reason = "";
      } in
      (deliver_json status_error (r.url ++ build_blk_result_path) (net.marshal_build param), r')

  unfoldable pub send_new_head :
      ℕ → Hash → Option BlockProof → RpcClient → Option RpcError × RpcClient
  unfolding deliver_json status_error
  send_new_head blockno bhash bproof r =
      let r' = record r { blockno = blockno; bhash = net.hex bhash } in
      let param : BlockParam = record {
        blockno = blockno;
        bhash = net.hex bhash;
        bproof = bproof;
      } in
      (deliver_json status_error (r.url ++ new_head_path) (net.marshal_block param), r')

  -- What follows the look into the cache; a success is cached.
  ask : ℕ → String → Option Bytes → RpcClient → Option RpcError × RpcClient
  unfolding deliver body_error
  ask blockno bhash none r = (some marshal_failed, r)
  ask blockno bhash (some body) r = elim (deliver body_error (r.url ++ verify_seal_path) body) [
    | some e ↦ (some e, r)
    | none ↦ (
      none,
      record r { cachesvs = some (record { blkno = blockno; bhash = bhash; bproof = body }) },
    )
  ]

  -- The cache is read before the error of the encoding, whose bytes are empty then.
  unfoldable pub send_verify_seal :
      ℕ → Hash → Option BlockProof → RpcClient → Option RpcError × RpcClient
  unfolding ask
  send_verify_seal blockno bhash bproof r =
      let r' = record r { blockno = blockno; bhash = net.hex bhash } in
      let json = seal_body net blockno bhash bproof in
      if is_cached r.cachesvs blockno (net.hex bhash) (or_empty json)
      then (none, r')
      else ask blockno (net.hex bhash) json r'

  -- The client is what the engine calls `EcRpcCall`.
  abbrev pub rpc_call : EcRpcCall RpcClient RpcError
  rpc_call = record { send_verify_seal = send_verify_seal }
