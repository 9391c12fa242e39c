-- ===== src/Connector/Loop/Witnesses.antt =====
-- ecconnector/ecconnector.go: the theorem on the loop, at events of which the first request fails.
use ecgeth.Base.{ℕ, ◌≡◌, refl, true, none, some, List, [], ◌∷◌, String, Bytes}
use ecgeth.Ecpon.Extra.{ExtraCodec, read_extra}
use ecgeth.Connector.Rpc.{Net, Exchange, response, unsent, RpcError, send_new_head}
use ecgeth.Connector.Batcher.Example.{node, snapshot}
use ecgeth.Connector.Loop.{
  Event, heartbeat, resend, new_head, sync_started, LoopState, start_connector, handle_event,
  loop_step, resend_head, after_events,
}
use ecgeth.Connector.Loop.NewHead.{IsTracked, after_events-IsTracked}

abbrev net : Net
net = record {
  hex = λ h. "0x";
  marshal_number = λ n. some (n ∷ []);
  marshal_build = λ p. some (p.nblockno ∷ []);
  marshal_block = λ p. some (p.blockno ∷ []);
  unmarshal_error = λ body. none;
  is_url = λ url. true;
}

abbrev codec : ExtraCodec
codec = record {
  encode = λ x. none;
  decode = λ bytes. some (record { next_committee = none; blk_proof = none });
}

abbrev well : String → Bytes → Exchange
well url body = response 200 "200 OK" (some [])

abbrev away : String → Bytes → Exchange
away url body = unsent

abbrev started : LoopState ℕ
started = start_connector "ec" 7 well

started_waits : started.usnewhead ≡ none
unfolding start_connector
started_waits = refl

abbrev failing : List (Event ℕ RpcError)
failing = new_head away snapshot ∷ heartbeat well ∷ []

abbrev history : List (Event ℕ RpcError)
history = resend well ∷ sync_started ∷ failing

after_events-IsTracked_example : IsTracked node.hashing codec net started history
after_events-IsTracked_example =
    after_events-IsTracked node.hashing codec net started history started_waits

-- The head waits after the request that failed, and no more after the one that did not.
waits_then_sent :
    ((after_events node.hashing codec net started failing).usnewhead ≡ none → ⊥)
    × ((after_events node.hashing codec net started history).usnewhead ≡ none)
unfolding after_events loop_step handle_event resend_head start_connector send_new_head read_extra
waits_then_sent = ((λ e. cc), refl)
