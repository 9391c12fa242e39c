-- ===== src/Eth/Filters/Witnesses.antt =====
-- eth/filters/filter_system.go: the theorems at a few subscriptions and a short fork.
use ecgeth.Base.{
  ◌/◌, ltb, sym, ap, inl, inr, Bool-cases, ℕ, ◌≡◌, ◌≢◌, refl, true, false, Option, none, some, List,
  [], ◌∷◌, if◌then◌else◌, arith, Hash,
}
use ecgeth.Base.Int.{pos, negsuc}
use ecgeth.Base.Outcome.{ok, err}
use ecgeth.Types.Header.{Header}
use ecgeth.Eth.Filters.{
  logs_subscription, mined_and_pending_logs_subscription, FilterQuery, Subscription, RpcNumbers,
  AreSpecial, logs_type,
}
use ecgeth.Eth.Filters.Range.{numbered, pending_one, logs_type_position}
use ecgeth.Eth.Filters.Index.{IndexOp, installs, uninstalls, index_after}
use ecgeth.Eth.Filters.Deliver.{LogTools, logs_event, logs_message, deliver_event}
use ecgeth.Eth.Filters.Deliver.Once.{received, news, deliver_event-received-live}
use ecgeth.Eth.Filters.Light.{LightTools, out_of_fuel, walk, light_filter_new_head}
use ecgeth.Eth.Filters.Light.Walk.{Branch, here, above, Apart}
use ecgeth.Eth.Filters.Light.Meet.{light_filter_new_head-Branch}
use ecgeth.Eth.Filters.Light.Ends.{IsNumbered, walk-Ends}

-- The numbers of the package rpc.
abbrev rpc : RpcNumbers
rpc = record { latest_block = negsuc 0; pending_block = negsuc 1; to_int64 = λ n. n }

rpc-AreSpecial : AreSpecial rpc
rpc-AreSpecial = record { latest = 0; later = 0; latest_negative = refl; pending_lower = refl }

logs_type_position_example :
    logs_type rpc (pos 7) rpc.pending_block ≡ some mined_and_pending_logs_subscription
logs_type_position_example = logs_type_position rpc (numbered 7) pending_one rpc-AreSpecial

abbrev query : FilterQuery
query = record { from_block = some (pos 7); to_block = none; addresses = []; topics = [] }

abbrev both_logs : Subscription
both_logs = record { id = 4; typ = mined_and_pending_logs_subscription; crit = query }

abbrev mined_logs : Subscription
mined_logs = record { id = 5; typ = logs_subscription; crit = query }

abbrev history : List IndexOp
history = uninstalls mined_logs ∷ installs both_logs ∷ installs mined_logs ∷ []

-- Logs are numbers, and those above the first block of the criteria match.
abbrev tools : LogTools ℕ ℕ
tools = record { filter_logs = λ ls from to addresses topics. ls; transaction_hash = λ tx. tx }

deliver_event-received-live_example :
    received tools 4 (deliver_event tools (index_after history) (logs_event (8 ∷ 9 ∷ [])))
    ≡ logs_message (8 ∷ 9 ∷ []) ∷ []
unfolding news
deliver_event-received-live_example =
    deliver_event-received-live tools history 4 (logs_event (8 ∷ 9 ∷ []))

-- A header of which all that is read is its hash, in the gas limit, its parent, which leaves out the
-- hash's last digit, and its number.
abbrev header : Hash → ℕ → Header
header h n = record {
  parent_hash = h / 10;
  uncle_hash = 0;
  coinbase = 0;
  root = 0;
  tx_hash = 0;
  receipt_hash = 0;
  bloom = 0;
  difficulty = none;
  number = some n;
  gas_limit = h;
  gas_used = 0;
  time = 0;
  extra = [];
  mix_digest = 0;
  nonce = record { b0 = 0; b1 = 0; b2 = 0; b3 = 0; b4 = 0; b5 = 0; b6 = 0; b7 = 0 };
}

abbrev light : LightTools ℕ
light = record {
  hash_of = λ h. h.gas_limit;
  read_header = λ h n. if ltb n 5 then some (header h n) else none;
  get_logs = λ h. none;
  get_receipts = λ h. none;
  bloom_filter = λ bloom addresses topics. true;
  tx_hash = λ l. l;
  with_removed = λ removed l. l;
}

-- Over block 1 stand the block 12 and the branch of the blocks 13 and 132.
old-Branch : Branch light (header 1 1) 1 (header 12 2) (header 12 2 ∷ [])
old-Branch = above (header 12 2) (header 1 1) [] refl (omega arith) refl (here refl (omega arith))

new-Branch : Branch light (header 1 1) 1 (header 132 3) (header 132 3 ∷ header 13 2 ∷ [])
new-Branch =
    above (header 132 3) (header 13 2) (header 13 2 ∷ []) refl (omega arith) refl
      (above (header 13 2) (header 1 1) [] refl (omega arith) refl (here refl (omega arith)))

are-Apart : Apart light (header 1 1) (header 12 2 ∷ []) (header 132 3 ∷ header 13 2 ∷ [])
are-Apart = record { branches = ((refl, (refl, (refl, tt))), tt); new_ones = (refl, (refl, tt)) }

light_filter_new_head-Branch_example :
    light_filter_new_head light 4 (some (header 12 2)) (header 132 3)
    ≡ ok ((header 12 2, true) ∷ (header 13 2, false) ∷ (header 132 3, false) ∷ [])
light_filter_new_head-Branch_example =
    light_filter_new_head-Branch light (header 1 1) 1 4 (header 12 2) (header 132 3)
      (header 12 2 ∷ []) (header 132 3 ∷ header 13 2 ∷ []) old-Branch new-Branch are-Apart
      (omega arith)

abbrev number_in : Option Header → Option ℕ
number_in none = none
number_in (some h) = h.number

header-numbered :
    (h : Hash) (n : ℕ) (x : Header) → light.read_header h n ≡ some x → x.number ≡ some n
header-numbered h n x e = elim (Bool-cases (ltb n 5)) [
  | inl low ↦ sym (ap number_in (rw low at e))
  | inr high ↦ absurd (cc (rw high at e))
]

light-IsNumbered : IsNumbered light
light-IsNumbered = record { numbered = header-numbered; bounded = λ h. refl }

walk-Ends_example : walk light 7 (header 12 2) (header 132 3) [] [] ≢ err out_of_fuel
walk-Ends_example =
    walk-Ends light light-IsNumbered 7 (header 12 2) (header 132 3) 2 3 [] [] refl (omega arith)
      refl (omega arith) (omega arith)
