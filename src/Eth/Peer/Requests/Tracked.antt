-- ===== src/Eth/Peer/Requests/Tracked.antt =====
-- eth/protocols/eth/peer.go: the requests and the tracker agree.
use ecgeth.Base.{
  ℕ, Bool, true, leb, Option, some, List, [], ◌∷◌, ◌++◌, Hash, ◌≡◌, refl, sym, ap, ◌∙◌, choose,
}
use ecgeth.Base.Int.{ℤ}
use ecgeth.Eth.Peer.Requests.{
  Code, Packet, Track, Requester, Content, eth66, send_request, request_one_header,
  request_headers_by_hash, request_headers_by_number, request_bodies, request_node_data,
  request_receipts, request_txs,
}

-- The requests with the ids of their answers.
pub data Request : Type 0 where
  one_header : Hash → Request
  headers_by_hash headers_by_number : ℕ → ℤ → ℤ → Bool → Request
  bodies node_data receipts txs : List Hash → Request

abbrev pub make_request : ℕ → Request → Requester → Requester
make_request id (one_header hash) p = request_one_header id hash p
make_request id (headers_by_hash hash amount skip reverse) p =
    request_headers_by_hash id hash amount skip reverse p
make_request id (headers_by_number n amount skip reverse) p =
    request_headers_by_number id n amount skip reverse p
make_request id (bodies hs) p = request_bodies id hs p
make_request id (node_data hs) p = request_node_data id hs p
make_request id (receipts hs) p = request_receipts id hs p
make_request id (txs hs) p = request_txs id hs p

abbrev pub after_requests : Requester → List (ℕ × Request) → Requester
after_requests p [] = p
after_requests p ((id, r) ∷ rs) = after_requests (make_request id r p) rs

-- The packets' codes and ids, and those of the tracks.
abbrev pub sent_ids : List Packet → List (Code × Option ℕ)
sent_ids [] = []
sent_ids (p ∷ ps) = (p.code, p.request_id) ∷ sent_ids ps

abbrev pub tracked_ids : List Track → List (Code × Option ℕ)
tracked_ids [] = []
tracked_ids (t ∷ ts) = (t.request, some t.id) ∷ tracked_ids ts

sent_ids-append :
    (ps : List Packet) (p : Packet)
    → sent_ids (ps ++ p ∷ []) ≡ sent_ids ps ++ (p.code, p.request_id) ∷ []
sent_ids-append [] p = refl
sent_ids-append (q ∷ ps) p = ap (λ x. (q.code, q.request_id) ∷ x) (sent_ids-append ps p)

tracked_ids-append :
    (ts : List Track) (t : Track)
    → tracked_ids (ts ++ t ∷ []) ≡ tracked_ids ts ++ (t.request, some t.id) ∷ []
tracked_ids-append [] t = refl
tracked_ids-append (q ∷ ts) t = ap (λ x. (q.request, some q.id) ∷ x) (tracked_ids-append ts t)

pub record AllTracked (p : Requester) : Type 0 where
  pub new_version : leb eth66 p.version ≡ true
  pub agree : sent_ids p.packets ≡ tracked_ids p.tracks

send_request-AllTracked :
    (request answer : Code) (id : ℕ) (content : Content) (p : Requester)
    → AllTracked p
    → AllTracked (send_request request answer id content p)
unfolding send_request
send_request-AllTracked request answer id content p a =
    choose AllTracked (leb eth66 p.version) _ _
      (λ new. record {
        new_version = a.new_version;
        agree =
            sent_ids-append p.packets _
            ∙ ap (λ x. x ++ (request, some id) ∷ []) a.agree
            ∙ sym (tracked_ids-append p.tracks _);
      })
      (λ old. absurd (cc (old, a.new_version)))

make_request-AllTracked :
    (id : ℕ) (r : Request) (p : Requester) → AllTracked p → AllTracked (make_request id r p)
unfolding request_one_header request_headers_by_hash request_headers_by_number request_bodies
    request_node_data request_receipts request_txs
make_request-AllTracked id (one_header hash) p a = send_request-AllTracked _ _ id _ p a
make_request-AllTracked id (headers_by_hash hash amount skip reverse) p a =
    send_request-AllTracked _ _ id _ p a
make_request-AllTracked id (headers_by_number n amount skip reverse) p a =
    send_request-AllTracked _ _ id _ p a
make_request-AllTracked id (bodies hs) p a = send_request-AllTracked _ _ id _ p a
make_request-AllTracked id (node_data hs) p a = send_request-AllTracked _ _ id _ p a
make_request-AllTracked id (receipts hs) p a = send_request-AllTracked _ _ id _ p a
make_request-AllTracked id (txs hs) p a = send_request-AllTracked _ _ id _ p a

-- To a peer of version 66 or later, after any requests, each packet's code and id are those of the
-- track for it, in the same order, if it was so before.
pub after_requests-AllTracked :
    (p : Requester) (rs : List (ℕ × Request)) → AllTracked p → AllTracked (after_requests p rs)
after_requests-AllTracked p [] a = a
after_requests-AllTracked p ((id, r) ∷ rs) a =
    after_requests-AllTracked (make_request id r p) rs (make_request-AllTracked id r p a)
