-- ===== src/Node/Futures/Life.antt =====
-- node/node_internal/src/message_processor.rs: a future gets one answer at most, and keeps it.
use stargate.Common.{
  ℕ, ◌+◌, ◌≤◌, ◌<◌, ◌≡◌, refl, ap, Bool, true, false, Option, none, some, List, [], ◌∷◌, ◌++◌,
  arith, ==→eq, ==-self, length, All,
}
use mathlib.Core.Path.{subst}
use mathlib.Core.Option.{some-injective}
use stargate.Common.Dict.{
  get, insert, get-insert, get-remove, values, All-values-insert, All-values-remove, All-map,
}
use stargate.Common.Outcome.{Outcome, ok, err, panic}
use stargate.Messages.Errors.{ErrorMessage}
use stargate.Node.Futures.{
  Answer, value, failure, MessageProcessor, new, update, channel, or_insert, add_future, deliver,
  send, sent_or_same, forget, respond_to, send_response, remove_found, remove_future, sent_or_err,
  fail_found, future_error, drop_future, SendError,
}

-- what happens to a processor: a request is made, an answer or an error comes for it, its time is up,
-- or nobody waits for a future any more
pub data Act : Type 0 where
  open_future : (hash : ℕ) → Act
  respond : (hash v : ℕ) → Act
  fail : ErrorMessage → Act
  timed_out : (hash : ℕ) → Act
  abandon : (id : ℕ) → Act

-- the processor that a handler goes on with
abbrev pub or_same : MessageProcessor → Outcome SendError MessageProcessor → MessageProcessor
or_same p (ok q) = q
or_same p (err e) = p
or_same p panic = p

unfoldable pub step : MessageProcessor → Act → MessageProcessor
step p (open_future hash) = let (q, id) = channel p in add_future q hash id
step p (respond hash v) = send_response p hash v
step p (fail msg) = or_same p (future_error p msg)
step p (timed_out hash) = remove_future p hash
step p (abandon id) = drop_future p id

unfoldable pub steps : MessageProcessor → List Act → MessageProcessor
steps p [] = p
steps p (a ∷ acts) = steps (step p a) acts

-- Each sender in the map belongs to a future of its own, which has no message yet; and no future has
-- more than one.
pub record IsSound (p : MessageProcessor) : Type 0 where
  pub made : (h i : ℕ) → get p.tx_map h ≡ some i → i < p.next
  pub apart : (h k i : ℕ) → get p.tx_map h ≡ some i → get p.tx_map k ≡ some i → h ≡ k
  pub waiting : (h i : ℕ) → get p.tx_map h ≡ some i → p.buffer i ≡ []
  pub ids : All (λ i. i < p.next) (values p.tx_map)
  pub single : (i : ℕ) → length (p.buffer i) ≤ 1

pub new-IsSound : IsSound new
unfolding new get
new-IsSound = record {
  made = λ h i e. cc;
  apart = λ h k i e f. cc;
  waiting = λ h i e. cc;
  ids = tt;
  single = λ i. omega arith;
}

module _ (p : MessageProcessor) (s : IsSound p) (hash : ℕ) where
  forget-IsSound : IsSound (forget hash p)
  forget-IsSound = record {
    made = λ h i e. ground (arith, get-remove hash h p.tx_map, s.made h i);
    apart = λ h k i e f.
        ground (arith, get-remove hash h p.tx_map, get-remove hash k p.tx_map, s.apart h k i);
    waiting = λ h i e. ground (arith, get-remove hash h p.tx_map, s.waiting h i);
    ids = All-values-remove _ hash p.tx_map s.ids;
    single = s.single;
  }

  -- a message for the future of `hash`, whose sender leaves the map
  sent-IsSound :
      (id : ℕ) (a : Answer)
      → get p.tx_map hash ≡ some id
      → IsSound (forget hash (record p { buffer = update p.buffer id (p.buffer id ++ a ∷ []) }))
  sent-IsSound id a has = record {
    made = λ h i e. ground (arith, get-remove hash h p.tx_map, s.made h i);
    apart = λ h k i e f.
        ground (arith, get-remove hash h p.tx_map, get-remove hash k p.tx_map, s.apart h k i);
    waiting = λ h i e.
        ground
          (arith, get-remove hash h p.tx_map, s.waiting h i, s.apart hash h i, has, ==→eq id i);
    ids = All-values-remove _ hash p.tx_map s.ids;
    single = λ i.
        ground (
          arith,
          s.single i,
          ap (λ (b : List Answer). length (b ++ a ∷ [])) (s.waiting hash id has),
        );
  }

  later_ids : All (λ i. i < p.next + 1) (values p.tx_map)
  later_ids = All-map (values p.tx_map) (λ i below. omega arith) s.ids

  opened-IsSound :
      get p.tx_map hash ≡ none
      → IsSound (record (channel p).0 { tx_map = insert hash p.next p.tx_map })
  unfolding channel
  opened-IsSound free = record {
    made = λ h i e. ground (arith, get-insert hash h p.next p.tx_map, s.made h i);
    apart = λ h k i e f. ground (
      arith,
      get-insert hash h p.next p.tx_map,
      get-insert hash k p.next p.tx_map,
      s.apart h k i,
      s.made h i,
      s.made k i,
    );
    waiting = λ h i e. ground (arith, get-insert hash h p.next p.tx_map, s.made h i, s.waiting h i);
    ids = All-values-insert _ hash p.next p.tx_map (omega arith) later_ids;
    single = λ i. ground (arith, s.single i);
  }

pub channel-IsSound : (p : MessageProcessor) → IsSound p → IsSound (channel p).0
unfolding channel
channel-IsSound p s = record {
  made = λ h i e. ground (arith, s.made h i e);
  apart = s.apart;
  waiting = λ h i e. ground (arith, s.made h i e, s.waiting h i e);
  ids = All-map (values p.tx_map) (λ i below. omega arith) s.ids;
  single = λ i. ground (arith, s.single i);
}

module _ (p : MessageProcessor) (s : IsSound p) (hash : ℕ) where
  or_insert-IsSound :
      (o : Option ℕ) → get p.tx_map hash ≡ o → IsSound (or_insert (channel p).0 hash p.next o)
  unfolding or_insert channel
  or_insert-IsSound none free = opened-IsSound p s hash free
  or_insert-IsSound (some i) used = channel-IsSound p s

  delivered-IsSound :
      (id : ℕ) (a : Answer) (l : Bool)
      → get p.tx_map hash ≡ some id
      → IsSound (sent_or_same p hash (deliver p id a l))
  unfolding deliver
  delivered-IsSound id a true e = sent-IsSound p s hash id a e
  delivered-IsSound id a false e = s

  failed-IsSound :
      (id : ℕ) (a : Answer) (l : Bool)
      → get p.tx_map hash ≡ some id
      → IsSound (or_same p (sent_or_err hash (deliver p id a l)))
  unfolding deliver
  failed-IsSound id a true e = sent-IsSound p s hash id a e
  failed-IsSound id a false e = s

  respond_to-IsSound :
      (v : ℕ) (o : Option ℕ) → get p.tx_map hash ≡ o → IsSound (respond_to p hash v o)
  unfolding respond_to send
  respond_to-IsSound v none e = s
  respond_to-IsSound v (some id) e = delivered-IsSound id (value v) (p.listening id) e

  remove_found-IsSound : (o : Option ℕ) → get p.tx_map hash ≡ o → IsSound (remove_found p hash o)
  unfolding remove_found
  remove_found-IsSound none e = s
  remove_found-IsSound (some id) e = forget-IsSound p s hash

fail_found-IsSound :
    (p : MessageProcessor) (s : IsSound p) (msg : ErrorMessage) (o : Option ℕ)
    → get p.tx_map msg.raw_transaction_hash ≡ o
    → IsSound (or_same p (fail_found p msg o))
unfolding fail_found send
fail_found-IsSound p s msg none e = s
fail_found-IsSound p s msg (some id) e =
    failed-IsSound p s msg.raw_transaction_hash id (failure msg.error) (p.listening id) e

pub step-IsSound : (p : MessageProcessor) (a : Act) → IsSound p → IsSound (step p a)
unfolding step add_future send_response future_error remove_future drop_future channel
step-IsSound p (open_future hash) s = or_insert-IsSound p s hash (get p.tx_map hash) refl
step-IsSound p (respond hash v) s = respond_to-IsSound p s hash v (get p.tx_map hash) refl
step-IsSound p (fail msg) s = fail_found-IsSound p s msg _ refl
step-IsSound p (timed_out hash) s = remove_found-IsSound p s hash (get p.tx_map hash) refl
step-IsSound p (abandon id) s = record {
  made = s.made;
  apart = s.apart;
  waiting = s.waiting;
  ids = s.ids;
  single = s.single;
}

pub steps-IsSound : (p : MessageProcessor) (acts : List Act) → IsSound p → IsSound (steps p acts)
unfolding steps
steps-IsSound p [] s = s
steps-IsSound p (a ∷ acts) s = steps-IsSound (step p a) acts (step-IsSound p a s)

-- a new channel whose message is put in at once, with no sender in the map
answered_new :
    (p : MessageProcessor) (a : Answer)
    → IsSound p
    → IsSound (record (channel p).0 {
      buffer = update (channel p).0.buffer p.next ((channel p).0.buffer p.next ++ a ∷ []);
    })
unfolding channel
answered_new p a s = record {
  made = λ h i e. ground (arith, s.made h i e);
  apart = s.apart;
  waiting = λ h i e. ground (arith, s.made h i e, s.waiting h i e);
  ids = All-map (values p.tx_map) (λ i below. omega arith) s.ids;
  single = λ i. ground (arith, s.single i, ==-self p.next);
}

sent_new :
    (p : MessageProcessor) (a : Answer) (l : Bool) (q : MessageProcessor)
    → IsSound p
    → deliver (channel p).0 p.next a l ≡ some q
    → IsSound q
unfolding deliver
sent_new p a false q s e = cc
sent_new p a true q s e = subst (IsSound) (some-injective _ _ e) (answered_new p a s)

pub send_new-IsSound :
    (p : MessageProcessor) (a : Answer) (q : MessageProcessor)
    → IsSound p
    → send (channel p).0 p.next a ≡ some q
    → IsSound q
unfolding send
send_new-IsSound p a q s e = sent_new p a _ q s e
