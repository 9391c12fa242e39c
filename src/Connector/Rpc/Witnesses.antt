-- ===== src/Connector/Rpc/Witnesses.antt =====
-- ecconnector/ecrpcclient.go: the theorems on the client, at a concrete external consensus.
use ecgeth.Base.{◌≡◌, refl, true, none, some, List, [], ◌∷◌, Bytes, String}
use ecgeth.Connector.Rpc.{
  Net, Exchange, response, unsent, new_rpc_client, seal_body, send_verify_seal, send_new_head,
}
use ecgeth.Connector.Rpc.Cache.{
  Call, verify, new_head, NeverEmpty, Accepted, perform_all, send_verify_seal-Accepted,
}

-- A net that writes a block as its number, and an external consensus that is well, or away.
abbrev net : Net
net = record {
  hex = λ h. "0x";
  marshal_number = λ n. some (n ∷ []);
  marshal_build = λ p. some (p.nblockno ∷ []);
  marshal_block = λ p. some (p.blockno ∷ []);
  unmarshal_error = λ body. none;
  is_url = λ url. true;
}

net-NeverEmpty : NeverEmpty net
net-NeverEmpty p body json = λ empty. cc

abbrev well : String → Bytes → Exchange
well url body = response 200 "200 OK" (some [])

abbrev away : String → Bytes → Exchange
away url body = unsent

abbrev earlier : List Call
earlier = verify well 5 9 none ∷ new_head away 4 8 none ∷ []

cached_answer :
    (send_verify_seal net away 5 9 none (perform_all net earlier (new_rpc_client "ec"))).0 ≡ none
unfolding send_verify_seal perform_all new_rpc_client seal_body send_new_head
cached_answer = refl

send_verify_seal-Accepted_example :
    (body : Bytes) × (seal_body net 5 9 none ≡ some body)
    × Accepted "ec" body (verify away 5 9 none ∷ earlier)
send_verify_seal-Accepted_example =
    send_verify_seal-Accepted net "ec" earlier away 5 9 none net-NeverEmpty cached_answer

first_answer : (send_verify_seal net well 5 9 none (new_rpc_client "ec")).0 ≡ none
unfolding send_verify_seal new_rpc_client seal_body
first_answer = refl
