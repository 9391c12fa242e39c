-- ===== src/Eth/Peer/Requests.antt =====
-- eth/protocols/eth/peer.go: the requests for headers, bodies, states, receipts and transactions, and
-- the replies to those of the other side. The random id of a request is an argument; the tracker and
-- the connection are lists of what they were given.
pub mod Tracked
use ecgeth.Base.{
  ℕ, Bool, true, false, leb, Option, none, some, List, [], ◌∷◌, ◌++◌, Hash, Bytes, if◌then◌else◌,
}
use ecgeth.Base.Int.{ℤ, unsigned}
use ecgeth.Types.Header.{Header}

-- The codes of the messages.
pub data Code : Type 0 where
  get_headers_code headers_code get_bodies_code bodies_code get_node_data_code : Code
  node_data_code get_receipts_code receipts_code get_txs_code pooled_txs_code : Code

-- `GetBlockHeadersPacket`, whose origin is a hash or a number.
pub record HeaderQuery : Type 0 where
  pub origin_hash : Hash
  pub origin_number : ℕ
  pub amount : ℕ
  pub skip : ℕ
  pub reverse : Bool

pub data Content : Type 0 where
  headers_query : HeaderQuery → Content
  hashes : List Hash → Content
  headers : List Header → Content
  values : List Bytes → Content

-- A message on the connection, with its id if it has one.
pub record Packet : Type 0 where
  pub code : Code
  pub request_id : Option ℕ
  pub content : Content

-- `requestTracker.Track`
pub record Track : Type 0 where
  pub request : Code
  pub answer : Code
  pub id : ℕ

-- The part of `Peer` that requests touch.
pub record Requester : Type 0 where
  pub version : ℕ
  pub packets : List Packet
  pub tracks : List Track

abbrev pub eth66 : ℕ
eth66 = 66

abbrev pub send_packet : Packet → Requester → Requester
send_packet packet p = record p { packets = p.packets ++ packet ∷ [] }

-- The end of each request: from version 66 on it has an id, under which the answer is expected.
unfoldable pub send_request : Code → Code → ℕ → Content → Requester → Requester
send_request request answer id content p =
    let tracked = record p {
      tracks = p.tracks ++ record { request = request; answer = answer; id = id } ∷ [];
    } in
    if leb eth66 p.version
    then send_packet (record { code = request; request_id = some id; content = content }) tracked
    else send_packet (record { code = request; request_id = none; content = content }) p

unfoldable pub request_one_header : ℕ → Hash → Requester → Requester
request_one_header id hash = send_request get_headers_code headers_code id (
    headers_query
      (record { origin_hash = hash; origin_number = 0; amount = 1; skip = 0; reverse = false }))

-- An `int` becomes a `uint64`.
unfoldable pub request_headers_by_hash : ℕ → Hash → ℤ → ℤ → Bool → Requester → Requester
request_headers_by_hash id origin amount skip reverse =
    send_request get_headers_code headers_code id (
      headers_query (record {
        origin_hash = origin;
        origin_number = 0;
        amount = unsigned amount;
        skip = unsigned skip;
        reverse = reverse;
      }))

unfoldable pub request_headers_by_number : ℕ → ℕ → ℤ → ℤ → Bool → Requester → Requester
request_headers_by_number id origin amount skip reverse =
    send_request get_headers_code headers_code id (
      headers_query (record {
        origin_hash = 0;
        origin_number = origin;
        amount = unsigned amount;
        skip = unsigned skip;
        reverse = reverse;
      }))

unfoldable pub request_bodies : ℕ → List Hash → Requester → Requester
request_bodies id hs = send_request get_bodies_code bodies_code id (hashes hs)

unfoldable pub request_node_data : ℕ → List Hash → Requester → Requester
request_node_data id hs = send_request get_node_data_code node_data_code id (hashes hs)

unfoldable pub request_receipts : ℕ → List Hash → Requester → Requester
request_receipts id hs = send_request get_receipts_code receipts_code id (hashes hs)

unfoldable pub request_txs : ℕ → List Hash → Requester → Requester
request_txs id hs = send_request get_txs_code pooled_txs_code id (hashes hs)

-- `SendBlockHeaders` and its like have no id, `ReplyBlockHeaders` and its like that of the request.
unfoldable pub send_block_headers : Option ℕ → List Header → Requester → Requester
send_block_headers id hs =
    send_packet (record { code = headers_code; request_id = id; content = headers hs })

unfoldable pub send_values : Code → Option ℕ → List Bytes → Requester → Requester
send_values code id vs = send_packet (record { code = code; request_id = id; content = values vs })

unfoldable pub send_block_bodies_rlp : Option ℕ → List Bytes → Requester → Requester
unfolding send_values
send_block_bodies_rlp = send_values bodies_code

unfoldable pub send_node_data : Option ℕ → List Bytes → Requester → Requester
unfolding send_values
send_node_data = send_values node_data_code

unfoldable pub send_receipts_rlp : Option ℕ → List Bytes → Requester → Requester
unfolding send_values
send_receipts_rlp = send_values receipts_code
