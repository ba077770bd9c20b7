-- ===== src/Node/Futures/Answers.antt =====
-- node/node_internal/src/message_processor.rs: what a future comes to, whatever else happens.
use stargate.Common.{
  ℕ, ◌≤◌, ◌<◌, ◌≡◌, ◌≢◌, refl, ◌∙◌, ap, Bool, true, false, Option, none, some, List, [], ◌∷◌, ◌++◌,
  arith, ==-self, length, All,
}
use stargate.Common.Dict.{Dict, get, get-insert, get-remove, values}
use stargate.Messages.Errors.{ErrorMessage, time_out}
use stargate.Node.Futures.{
  Answer, value, failure, MessageProcessor, new, update, channel, or_insert, add_future, deliver,
  send, sent_or_same, forget, respond_to, send_response, remove_found, remove_future, sent_or_err,
  fail_found, future_error, drop_future, has_sender, ready, failed, polled, poll,
}
use stargate.Node.Futures.Life.{
  Act, open_future, respond, fail, timed_out, abandon, or_same, step, steps, IsSound, new-IsSound,
  channel-IsSound, steps-IsSound,
}

-- After anything that happens to a new processor, in any order, a future has at most one message, and
-- one whose sender is still in the map has none.
pub answers_bound :
    (acts : List Act) (hash id : ℕ)
    → (length ((steps new acts).buffer id) ≤ 1)
      × (get (steps new acts).tx_map hash ≡ some id → (steps new acts).buffer id ≡ [])
answers_bound acts hash id =
    let s = steps-IsSound new acts new-IsSound in (s.single id, s.waiting hash id)

-- the future `id` is made, its sender is gone, and its channel holds `messages`
record Settled (id : ℕ) (messages : List Answer) (p : MessageProcessor) : Type 0 where
  made : id < p.next
  gone : (h : ℕ) → get p.tx_map h ≢ some id
  holds : p.buffer id ≡ messages

module _ (id : ℕ) (messages : List Answer) (p : MessageProcessor) (s : Settled id messages p)
    (hash : ℕ) where
  forget-Settled : Settled id messages (forget hash p)
  forget-Settled = record {
    made = s.made;
    gone = λ h e. ground (arith, get-remove hash h p.tx_map, s.gone h);
    holds = s.holds;
  }

  or_insert-Settled : (o : Option ℕ) → Settled id messages (or_insert (channel p).0 hash p.next o)
  unfolding or_insert channel
  or_insert-Settled none = record {
    made = ground (arith, s.made);
    gone = λ h e. ground (arith, get-insert hash h p.next p.tx_map, s.gone h, s.made);
    holds = ground (arith, s.made, s.holds);
  }
  or_insert-Settled (some i) = record {
    made = ground (arith, s.made);
    gone = s.gone;
    holds = ground (arith, s.made, s.holds);
  }

  other_buffer :
      (i : ℕ) (a : Answer)
      → get p.tx_map hash ≡ some i
      → update p.buffer i (p.buffer i ++ a ∷ []) id ≡ messages
  other_buffer i a e = ground (arith, s.gone hash, s.holds)

  delivered-Settled :
      (i : ℕ) (a : Answer) (l : Bool)
      → get p.tx_map hash ≡ some i
      → Settled id messages (sent_or_same p hash (deliver p i a l))
        × Settled id messages (or_same p (sent_or_err hash (deliver p i a l)))
  unfolding deliver
  delivered-Settled i a false e = (s, s)
  delivered-Settled i a true e = (moved, moved)
    where
      moved :
          Settled id messages
            (forget hash (record p { buffer = update p.buffer i (p.buffer i ++ a ∷ []) }))
      moved = record { made = s.made; gone = forget-Settled.gone; holds = other_buffer i a e }

  respond_to-Settled :
      (v : ℕ) (o : Option ℕ) → get p.tx_map hash ≡ o → Settled id messages (respond_to p hash v o)
  unfolding respond_to send
  respond_to-Settled v none e = s
  respond_to-Settled v (some i) e = (delivered-Settled i (value v) (p.listening i) e).0

  remove_found-Settled : (o : Option ℕ) → Settled id messages (remove_found p hash o)
  unfolding remove_found
  remove_found-Settled none = s
  remove_found-Settled (some i) = forget-Settled

fail_found-Settled :
    (id : ℕ) (messages : List Answer) (p : MessageProcessor) (s : Settled id messages p)
    (msg : ErrorMessage) (o : Option ℕ)
    → get p.tx_map msg.raw_transaction_hash ≡ o
    → Settled id messages (or_same p (fail_found p msg o))
unfolding fail_found send
fail_found-Settled id messages p s msg none e = s
fail_found-Settled id messages p s msg (some i) e =
    (delivered-Settled id messages p s msg.raw_transaction_hash i (failure msg.error)
      (p.listening i) e).1

step-Settled :
    (id : ℕ) (messages : List Answer) (p : MessageProcessor) (a : Act)
    → Settled id messages p
    → Settled id messages (step p a)
unfolding step add_future send_response future_error remove_future drop_future channel
step-Settled id ms p (open_future hash) s = or_insert-Settled id ms p s hash (get p.tx_map hash)
step-Settled id ms p (respond hash v) s =
    respond_to-Settled id ms p s hash v (get p.tx_map hash) refl
step-Settled id ms p (fail msg) s = fail_found-Settled id ms p s msg _ refl
step-Settled id ms p (timed_out hash) s = remove_found-Settled id ms p s hash (get p.tx_map hash)
step-Settled id ms p (abandon i) s = record { made = s.made; gone = s.gone; holds = s.holds }

steps-Settled :
    (id : ℕ) (messages : List Answer) (p : MessageProcessor) (acts : List Act)
    → Settled id messages p
    → Settled id messages (steps p acts)
unfolding steps
steps-Settled id ms p [] s = s
steps-Settled id ms p (a ∷ acts) s = steps-Settled id ms (step p a) acts (step-Settled id ms p a s)

module _ (p : MessageProcessor) (sound : IsSound p) (hash id : ℕ) where
  -- the first answer to a future that somebody listens to
  respond-Settled :
      (v : ℕ)
      → get p.tx_map hash ≡ some id
      → p.listening id ≡ true
      → Settled id (value v ∷ []) (step p (respond hash v))
  unfolding step send_response respond_to send deliver
  respond-Settled v has hears =
      rw (has, hears)
        (record {
          made = sound.made hash id has;
          gone = λ h e. ground (arith, get-remove hash h p.tx_map, sound.apart hash h id has);
          holds = ground (arith, ==-self id, sound.waiting hash id has);
        })

  -- In a processor that new futures, answers, errors, time-outs and dropped futures have led to, an
  -- answer to a request whose future is waited for is what the future gives, whatever happens after
  -- it: a later time-out, a second answer, an error or a new request with the same hash.
  pub answer_stays :
      (v : ℕ) (acts : List Act)
      → get p.tx_map hash ≡ some id
      → p.listening id ≡ true
      → poll (steps (step p (respond hash v)) acts) id ≡ ready v
  unfolding poll
  answer_stays v acts has hears =
      let after = steps-Settled id _ _ acts (respond-Settled v has hears) in
      ap (polled (has_sender (steps (step p (respond hash v)) acts).tx_map id)) after.holds

no_sender : (m : Dict ℕ) (id : ℕ) → All (λ i. i < id) (values m) → has_sender m id ≡ false
unfolding has_sender
no_sender [] id h = refl
no_sender ((_, i) ∷ m) id h = ground (arith, no_sender m id h.1)

module _ (p : MessageProcessor) (hash id : ℕ) (has : get p.tx_map hash ≡ some id) where
  reopened : step p (open_future hash) ≡ (channel p).0
  unfolding step add_future channel
  reopened = ap (or_insert (channel p).0 hash p.next) has ∙ unfold or_insert in refl

  fresh_closed : IsSound p → poll (channel p).0 p.next ≡ failed time_out
  unfolding poll channel
  fresh_closed sound = ground (arith, ==-self p.next, no_sender p.tx_map p.next sound.ids)

  still_hears : IsSound p → p.listening id ≡ true → (channel p).0.listening id ≡ true
  unfolding channel
  still_hears sound hears = ground (arith, sound.made hash id has)

  still_has : get (channel p).0.tx_map hash ≡ some id
  unfolding channel
  still_has = has

  -- In a processor as above, a request with the hash of one whose future is waited for: the new future
  -- times out at once, and the earlier one is still what an answer reaches, whatever happens after it.
  pub second_request :
      (v : ℕ) (acts : List Act)
      → IsSound p
      → p.listening id ≡ true
      → (poll (step p (open_future hash)) p.next ≡ failed time_out)
        × (poll (steps (step (step p (open_future hash)) (respond hash v)) acts) id ≡ ready v)
  second_request v acts sound hears = (
    ap (λ (q : MessageProcessor). poll q p.next) reopened ∙ fresh_closed sound,
    ap (λ (q : MessageProcessor). poll (steps (step q (respond hash v)) acts) id) reopened
        ∙ answer_stays (channel p).0 (channel-IsSound p sound) hash id v acts still_has
            (still_hears sound hears),
  )
