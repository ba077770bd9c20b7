-- ===== src/Node/Futures.antt =====
-- node/node_internal/src/message_processor.rs: the futures that callers of a node wait on. A future is
-- the receiver of a channel for one message. The sender is a clone in the map: a receiver whose sender
-- is gone finds its channel closed.
pub mod Life
pub mod Answers
use stargate.Common.{
  ℕ, ◌+◌, Bool, true, false, ◌||◌, Option, none, some, List, [], ◌∷◌, ◌++◌, ◌==◌, if◌then◌else◌,
}
use stargate.Common.Dict.{Dict, get, insert, remove}
use stargate.Common.Outcome.{Outcome, ok, err}
use stargate.Messages.Errors.{SgError, ErrorMessage, time_out}

pub data Answer : Type 0 where
  value : ℕ → Answer
  failure : SgError → Answer

-- The map of senders, by the future that each belongs to; what each future's channel holds, and
-- whether somebody still holds the receiver. Futures are numbered in the order of their creation.
pub record MessageProcessor : Type 0 where
  pub tx_map : Dict ℕ
  pub next : ℕ
  pub buffer : ℕ → List Answer
  pub listening : ℕ → Bool

unfoldable pub new : MessageProcessor
new = record { tx_map = []; next = 0; buffer = λ _. []; listening = λ _. false }

abbrev pub update {ℓ} : {A : Type ℓ} → (ℕ → A) → ℕ → A → ℕ → A
update f i a j = if i == j then a else f j

-- `channel(1)` and `MessageFuture::new`
unfoldable pub channel : MessageProcessor → MessageProcessor × ℕ
channel p = (
  record p {
    next = p.next + 1;
    buffer = update p.buffer p.next [];
    listening = update p.listening p.next true;
  },
  p.next,
)

unfoldable pub or_insert : MessageProcessor → ℕ → ℕ → Option ℕ → MessageProcessor
or_insert p hash id none = record p { tx_map = insert hash id p.tx_map }
or_insert p hash id (some _) = p

-- `entry(hash).or_insert(sender.clone())`; the sender itself is dropped
unfoldable pub add_future : MessageProcessor → ℕ → ℕ → MessageProcessor
add_future p hash id = or_insert p hash id (get p.tx_map hash)

unfoldable pub deliver : MessageProcessor → ℕ → Answer → Bool → Option MessageProcessor
deliver p id answer true =
    some (record p { buffer = update p.buffer id (p.buffer id ++ answer ∷ []) })
deliver p id answer false = none

-- `tx.clone().send(answer).wait()`: an error when the receiver is gone
unfoldable pub send : MessageProcessor → ℕ → Answer → Option MessageProcessor
send p id answer = deliver p id answer (p.listening id)

abbrev pub forget : ℕ → MessageProcessor → MessageProcessor
forget hash p = record p { tx_map = remove hash p.tx_map }

-- after the message the sender is removed; where it could not be sent, it stays
abbrev pub sent_or_same : MessageProcessor → ℕ → Option MessageProcessor → MessageProcessor
sent_or_same p hash none = p
sent_or_same p hash (some sent) = forget hash sent

unfoldable pub respond_to : MessageProcessor → ℕ → ℕ → Option ℕ → MessageProcessor
unfolding send
respond_to p hash v none = p
respond_to p hash v (some id) = sent_or_same p hash (send p id (value v))

unfoldable pub send_response : MessageProcessor → ℕ → ℕ → MessageProcessor
send_response p hash v = respond_to p hash v (get p.tx_map hash)

unfoldable pub remove_found : MessageProcessor → ℕ → Option ℕ → MessageProcessor
remove_found p hash none = p
remove_found p hash (some _) = forget hash p

unfoldable pub remove_future : MessageProcessor → ℕ → MessageProcessor
remove_future p hash = remove_found p hash (get p.tx_map hash)

pub data SendError : Type 0 where
  receiver_gone : SendError

abbrev pub sent_or_err : ℕ → Option MessageProcessor → Outcome SendError MessageProcessor
sent_or_err hash none = err receiver_gone
sent_or_err hash (some sent) = ok (forget hash sent)

unfoldable pub fail_found :
    MessageProcessor → ErrorMessage → Option ℕ → Outcome SendError MessageProcessor
unfolding send
fail_found p msg none = ok p
fail_found p msg (some id) = sent_or_err msg.raw_transaction_hash (send p id (failure msg.error))

unfoldable pub future_error : MessageProcessor → ErrorMessage → Outcome SendError MessageProcessor
future_error p msg = fail_found p msg (get p.tx_map msg.raw_transaction_hash)

-- the receiver is dropped with its future
unfoldable pub drop_future : MessageProcessor → ℕ → MessageProcessor
drop_future p id = record p { listening = update p.listening id false }

unfoldable pub has_sender : Dict ℕ → ℕ → Bool
has_sender [] id = false
has_sender ((_, i) ∷ m) id = (i == id) || has_sender m id

pub data Poll : Type 0 where
  ready : ℕ → Poll
  failed : SgError → Poll
  not_ready : Poll

abbrev pub answered : Answer → Poll
answered (value v) = ready v
answered (failure e) = failed e

abbrev pub polled : Bool → List Answer → Poll
polled has (a ∷ _) = answered a
polled true [] = not_ready
polled false [] = failed time_out

-- MessageFuture::poll: what it gives
unfoldable pub poll : MessageProcessor → ℕ → Poll
poll p id = polled (has_sender p.tx_map id) (p.buffer id)
