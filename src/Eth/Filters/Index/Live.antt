-- ===== src/Eth/Filters/Index/Live.antt =====
-- eth/filters/filter_system.go: the index of the event loop, and which subscriptions are live.
use ecgeth.Base.{
  ℕ, Bool, true, false, Option, none, some, List, [], ◌∷◌, ◌==◌, if◌then◌else◌, ◌&&◌, ◌≡◌, refl,
  sym, subst, choose, arith, Bool-cases, inl, inr, ==_refl,
}
use ecgeth.Eth.Filters.{
  SubscriptionType, unknown_subscription, logs_subscription, pending_logs_subscription,
  mined_and_pending_logs_subscription, pending_transactions_subscription, blocks_subscription,
  same_type, Subscription,
}
use ecgeth.Eth.Filters.Index.{
  FilterIndex, empty_index, delete_id, put, change_for, install, uninstall, IndexOp, installs,
  uninstalls, index_after, find_id,
}

-- The types of events that a subscription is for.
abbrev pub covers : SubscriptionType → SubscriptionType → Bool
covers mined_and_pending_logs_subscription logs_subscription = true
covers mined_and_pending_logs_subscription pending_logs_subscription = true
covers mined_and_pending_logs_subscription _ = false
covers t u = same_type t u

-- The subscription with an id that is live for a type: the last operation on both decides.
abbrev pub live : SubscriptionType → ℕ → List IndexOp → Option Subscription
live t id [] = none
live t id (installs f ∷ ops) = if covers f.typ t && (f.id == id) then some f else live t id ops
live t id (uninstalls f ∷ ops) = if covers f.typ t && (f.id == id) then none else live t id ops

change_for-at :
    (s t : SubscriptionType) (change : List Subscription → List Subscription) (ix : FilterIndex)
    → change_for s change ix t ≡ (if covers s t then change (ix t) else ix t)
unfolding change_for
change_for-at unknown_subscription t change ix = refl
change_for-at logs_subscription t change ix = refl
change_for-at pending_logs_subscription t change ix = refl
change_for-at mined_and_pending_logs_subscription unknown_subscription change ix = refl
change_for-at mined_and_pending_logs_subscription logs_subscription change ix = refl
change_for-at mined_and_pending_logs_subscription pending_logs_subscription change ix = refl
change_for-at mined_and_pending_logs_subscription mined_and_pending_logs_subscription change ix =
    refl
change_for-at mined_and_pending_logs_subscription pending_transactions_subscription change ix = refl
change_for-at mined_and_pending_logs_subscription blocks_subscription change ix = refl
change_for-at pending_transactions_subscription t change ix = refl
change_for-at blocks_subscription t change ix = refl

find_id-delete_id :
    (id k : ℕ) (fs : List Subscription)
    → find_id id (delete_id k fs) ≡ (if k == id then none else find_id id fs)
unfolding delete_id
find_id-delete_id id k [] = ground arith
find_id-delete_id id k (f ∷ fs) = ground (arith, find_id-delete_id id k fs)

find_id-put :
    (id : ℕ) (f : Subscription) (fs : List Subscription)
    → find_id id (put f fs) ≡ (if f.id == id then some f else find_id id fs)
unfolding put
find_id-put id f fs = rw (find_id-delete_id id f.id fs) (ground arith)

-- The index of the event loop holds, for each type of events, exactly the subscriptions that the
-- installations and removals so far leave alive: under each id the one that was installed last for
-- that type, unless it was removed since. A subscription to both kinds of logs counts for each of them.
pub index_after-live :
    (ops : List IndexOp) (t : SubscriptionType) (id : ℕ)
    → find_id id (index_after ops t) ≡ live t id ops
unfolding empty_index install uninstall
index_after-live [] t id = refl
index_after-live (installs f ∷ ops) t id =
    rw (change_for-at f.typ t (put f) (index_after ops), sym (index_after-live ops t id))
      (elim (Bool-cases (covers f.typ t)) [
        | inl here ↦ rw here (find_id-put id f (index_after ops t))
        | inr other ↦ rw other refl
      ])
index_after-live (uninstalls f ∷ ops) t id =
    rw (change_for-at f.typ t (delete_id f.id) (index_after ops), sym (index_after-live ops t id))
      (elim (Bool-cases (covers f.typ t)) [
        | inl here ↦ rw here (find_id-delete_id id f.id (index_after ops t))
        | inr other ↦ rw other refl
      ])

-- The ids of a list differ from each other.
abbrev pub IsDistinct : List Subscription → Type 0
IsDistinct [] = Unit
IsDistinct (f ∷ fs) = (find_id f.id fs ≡ none) × IsDistinct fs

find_id-less :
    (id k : ℕ) (fs : List Subscription) → find_id id fs ≡ none → find_id id (delete_id k fs) ≡ none
find_id-less id k fs e = rw (find_id-delete_id id k fs, e) (ground arith)

delete_id-IsDistinct :
    (k : ℕ) (fs : List Subscription) → IsDistinct fs → IsDistinct (delete_id k fs)
unfolding delete_id
delete_id-IsDistinct k [] d = tt
delete_id-IsDistinct k (f ∷ fs) d =
    choose IsDistinct (f.id == k) (delete_id k fs) (f ∷ delete_id k fs)
      (λ here. delete_id-IsDistinct k fs d.1)
      (λ other. (find_id-less f.id k fs d.0, delete_id-IsDistinct k fs d.1))

put-IsDistinct : (f : Subscription) (fs : List Subscription) → IsDistinct fs → IsDistinct (put f fs)
unfolding put
put-IsDistinct f fs d =
    (rw (find_id-delete_id f.id f.id fs, ==_refl f.id) refl, delete_id-IsDistinct f.id fs d)

pub index_after-IsDistinct :
    (ops : List IndexOp) (t : SubscriptionType) → IsDistinct (index_after ops t)
unfolding empty_index install uninstall
index_after-IsDistinct [] t = tt
index_after-IsDistinct (installs f ∷ ops) t =
    let was = index_after ops t in
    subst IsDistinct (sym (change_for-at f.typ t (put f) (index_after ops))) (
      choose IsDistinct (covers f.typ t) (put f was) was
        (λ here. put-IsDistinct f was (index_after-IsDistinct ops t))
        (λ other. index_after-IsDistinct ops t))
index_after-IsDistinct (uninstalls f ∷ ops) t =
    let was = index_after ops t in
    subst IsDistinct (sym (change_for-at f.typ t (delete_id f.id) (index_after ops))) (
      choose IsDistinct (covers f.typ t) (delete_id f.id was) was
        (λ here. delete_id-IsDistinct f.id was (index_after-IsDistinct ops t))
        (λ other. index_after-IsDistinct ops t))
