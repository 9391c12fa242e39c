-- ===== src/Connector/Loop/NewHead.antt =====
-- ecconnector/ecconnector.go: no new head is lost.
use ecgeth.Base.{
  ◌≡◌, refl, sym, ◌∙◌, ap, ◌⊎◌, inl, inr, true, false, Option, none, some, List, [], ◌∷◌, String,
  Bytes, arith, if◌then◌else◌, Option-cases, Bool-cases,
}
use ecgeth.Types.Block.{Hashing, Block, get_header}
use ecgeth.Ecpon.Extra.{ExtraCodec, read_extra}
use ecgeth.Connector.Rpc.{Net, Exchange, send_new_head}
use ecgeth.Connector.Loop.{
  UnconsumedNewHead, Event, heartbeat, resend, build_failed, mined, new_head, sync_started,
  sync_failed, sync_done, quits, LoopState, head_of, send_head, resend_head, restart, handle_event,
  loop_step, after_events,
}

abbrev or_else : Option UnconsumedNewHead → Option UnconsumedNewHead → Option UnconsumedNewHead
or_else none old = old
or_else (some u) old = some u

module _ {Tx : Type 0} (net : Net) where
  -- Sending `u`, the latest head from now on, whatever the answer.
  send_head-cases :
      (post : String → Bytes → Exchange) (u : UnconsumedNewHead) (s : LoopState Tx)
      → ((send_head net post u s).usnewhead ≡ some u)
        ⊎ (((send_head net post u s).usnewhead ≡ none)
            × ((send_new_head net post u.blkno u.bhash u.bproof s.client).0 ≡ none))
  unfolding send_head
  send_head-cases post u s =
      elim (Option-cases (send_new_head net post u.blkno u.bhash u.bproof s.client).0) [
        | inl fine ↦ inr (rw fine refl, fine)
        | inr (err, e) ↦ inl (rw e refl)
      ]

module _ {Tx Receipt E : Type 0} (k : Hashing Tx Receipt) (codec : ExtraCodec) where
  -- The head that an event announces, if its extra data can be read.
  unfoldable pub announced : Event Tx E → Option UnconsumedNewHead
  announced (new_head post b) =
      if (read_extra codec (get_header b)).failed then none else some (head_of k codec b)
  announced (heartbeat post) = none
  announced (resend post) = none
  announced (build_failed post e) = none
  announced (mined post b) = none
  announced sync_started = none
  announced sync_failed = none
  announced sync_done = none
  announced quits = none

  -- The exchange of the request for `u` that an event makes in a state succeeds.
  abbrev pub Delivers : Net → UnconsumedNewHead → Event Tx E → LoopState Tx → Type 0
  Delivers net u (resend post) s =
      (s.usnewhead ≡ some u) × ((send_new_head net post u.blkno u.bhash u.bproof s.client).0 ≡ none)
  Delivers net u (new_head post b) s =
      (announced (new_head post b) ≡ some u)
      × ((send_new_head net post u.blkno u.bhash u.bproof s.client).0 ≡ none)
  Delivers net u _ s = ⊥

  module _ (net : Net) (start : LoopState Tx) where
    abbrev pub State : List (Event Tx E) → LoopState Tx
    State es = after_events k codec net start es

    -- The last head that was announced while the loop ran.
    unfoldable pub latest : List (Event Tx E) → Option UnconsumedNewHead
    latest [] = none
    latest (e ∷ es) =
        let old = latest es in if (State es).runs then or_else (announced e) old else old

    abbrev pub Delivered : UnconsumedNewHead → List (Event Tx E) → Type 0
    Delivered u [] = ⊥
    Delivered u (e ∷ es) = Delivers net u e (State es) ⊎ Delivered u es

    -- The latest head waits to be sent again, or it was delivered and nothing waits.
    abbrev pub IsTracked : List (Event Tx E) → Type 0
    IsTracked es =
        ((State es).usnewhead ≡ latest es)
        ⊎ ((u : UnconsumedNewHead) × ((State es).usnewhead ≡ none)
            × (latest es ≡ some u)
            × Delivered u es)

    -- An event that the loop does not see.
    stopped-IsTracked :
        (e : Event Tx E) (es : List (Event Tx E))
        → (State es).runs ≡ false
        → IsTracked es
        → IsTracked (e ∷ es)
    unfolding after_events loop_step latest
    stopped-IsTracked e es stop t = rw stop (elim t [
      | inl same ↦ inl same
      | inr (u, waits, last, done) ↦ inr (u, waits, last, inr done)
    ])

    State-runs :
        (e : Event Tx E) (es : List (Event Tx E))
        → (State es).runs ≡ true
        → State (e ∷ es) ≡ handle_event k codec net e (State es)
    unfolding after_events loop_step
    State-runs e es go = ap (λ r. if r then handle_event k codec net e (State es) else State es) go

    latest-runs :
        (e : Event Tx E) (es : List (Event Tx E))
        → (State es).runs ≡ true
        → latest (e ∷ es) ≡ or_else (announced e) (latest es)
    unfolding latest
    latest-runs e es go = ap (λ r. if r then or_else (announced e) (latest es) else latest es) go

    -- An event that announces no head and leaves the one that waits.
    kept-IsTracked :
        (e : Event Tx E) (es : List (Event Tx E))
        → (State es).runs ≡ true
        → (handle_event k codec net e (State es)).usnewhead ≡ (State es).usnewhead
        → announced e ≡ none
        → IsTracked es
        → IsTracked (e ∷ es)
    kept-IsTracked e es go kept no_head t =
        let waiting = ap (λ s. s.usnewhead) (State-runs e es go) ∙ kept in
        let head = latest-runs e es go ∙ ap (λ a. or_else a (latest es)) no_head in
        elim t [
          | inl same ↦ inl (waiting ∙ same ∙ sym head)
          | inr (u, waits, last, done) ↦ inr (u, waiting ∙ waits, head ∙ last, inr done)
        ]

    -- An event that sends `u`, the latest head from then on.
    sent-IsTracked :
        (e : Event Tx E) (es : List (Event Tx E)) (post : String → Bytes → Exchange)
        (u : UnconsumedNewHead)
        → (State es).runs ≡ true
        → handle_event k codec net e (State es) ≡ send_head net post u (State es)
        → or_else (announced e) (latest es) ≡ some u
        → ((send_new_head net post u.blkno u.bhash u.bproof (State es).client).0 ≡ none
            → Delivers net u e (State es))
        → IsTracked (e ∷ es)
    sent-IsTracked e es post u go sends last delivers =
        let waiting = ap (λ s. s.usnewhead) (State-runs e es go ∙ sends) in
        let head = latest-runs e es go ∙ last in
        elim (send_head-cases net post u (State es)) [
          | inl waits ↦ inl (waiting ∙ waits ∙ sym head)
          | inr (nothing, fine) ↦ inr (u, waiting ∙ nothing, head, inl (delivers fine))
        ]

    resend-IsTracked :
        (post : String → Bytes → Exchange) (es : List (Event Tx E))
        → (State es).runs ≡ true
        → IsTracked es
        → IsTracked (resend post ∷ es)
    unfolding handle_event resend_head announced
    resend-IsTracked post es go t = elim (Option-cases (State es).usnewhead) [
      | inl nothing ↦
          kept-IsTracked (resend post) es go
            (ap (λ o. (resend_head net post o (State es)).usnewhead) nothing) refl t
      | inr (u, e) ↦ elim t [
        | inl same ↦
            sent-IsTracked (resend post) es post u go
              (ap (λ o. resend_head net post o (State es)) e) (sym same ∙ e) (λ fine. (e, fine))
        | inr (v, waits, last, done) ↦ cc
      ]
    ]

    new_head-IsTracked :
        (post : String → Bytes → Exchange) (b : Block Tx) (es : List (Event Tx E))
        → (State es).runs ≡ true
        → IsTracked es
        → IsTracked (new_head post b ∷ es)
    unfolding handle_event announced
    new_head-IsTracked post b es go t = elim (Bool-cases (read_extra codec (get_header b)).failed) [
      | inl unread ↦ kept-IsTracked (new_head post b) es go (rw unread refl) (rw unread refl) t
      | inr read ↦
          sent-IsTracked (new_head post b) es post (head_of k codec b) go (rw read refl)
            (rw read refl) (λ fine. (rw read refl, fine))
    ]

    step-IsTracked :
        (e : Event Tx E) (es : List (Event Tx E))
        → (State es).runs ≡ true
        → IsTracked es
        → IsTracked (e ∷ es)
    unfolding handle_event announced restart
    step-IsTracked (heartbeat post) es go t = kept-IsTracked (heartbeat post) es go refl refl t
    step-IsTracked (resend post) es go t = resend-IsTracked post es go t
    step-IsTracked (build_failed post r) es go t =
        kept-IsTracked (build_failed post r) es go refl refl t
    step-IsTracked (mined post b) es go t = kept-IsTracked (mined post b) es go refl refl t
    step-IsTracked (new_head post b) es go t = new_head-IsTracked post b es go t
    step-IsTracked sync_started es go t = kept-IsTracked sync_started es go (ground arith) refl t
    step-IsTracked sync_failed es go t = kept-IsTracked sync_failed es go (ground arith) refl t
    step-IsTracked sync_done es go t = kept-IsTracked sync_done es go (ground arith) refl t
    step-IsTracked quits es go t = kept-IsTracked quits es go refl refl t

    -- Started with no head that waits, the loop loses none: after any events, the latest head that
    -- was announced with readable extra data while the loop ran is the one that waits to be sent
    -- again, or nothing waits, and the external consensus has answered a request for that head with a
    -- success.
    pub after_events-IsTracked : (es : List (Event Tx E)) → start.usnewhead ≡ none → IsTracked es
    unfolding after_events latest
    after_events-IsTracked [] none' = inl none'
    after_events-IsTracked (e ∷ es) none' = elim (Bool-cases (State es).runs) [
      | inl go ↦ step-IsTracked e es go (after_events-IsTracked es none')
      | inr stop ↦ stopped-IsTracked e es stop (after_events-IsTracked es none')
    ]
