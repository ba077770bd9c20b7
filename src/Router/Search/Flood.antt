-- ===== src/Router/Search/Flood.antt =====
-- router/ant/src/lib.rs: how far a route search spreads.
use stargate.Common.{
  ℕ, ◌≡◌, refl, sym, ap, ◌∙◌, Bool, true, false, not, ◌&&◌, Option, none, some, List, [], ◌∷◌, ◌++◌,
  arith, All, Bool-cases, inl, inr,
}
use stargate.Common.Outcome.{ok}
use mathlib.Core.Path.{subst}
use mathlib.Core.List.{append_assoc, append-nil}
use stargate.Common.Handler.{
  Keeps, Keeps-bind, Keeps-pure, Keeps-lift, Keeps-lift-bind, Keeps-gets, modify,
}
use stargate.Router.Seeds.{SValue}
use stargate.Router.Paths.{BalanceQueryResponse}
use stargate.Router.Wallet.{Node, own_balance}
use stargate.Router.Search.{
  AntQueryMessage, RouterNetworkMessage, ant_query, Node, AntRouterInner, Search, send,
  already_sent, send_to, send_ant_query_message, match_seed, answer_query, handle_ant_query_message,
}

-- no hop after `before` leads to an address that is met already
abbrev pub loop_free_after : List BalanceQueryResponse → List BalanceQueryResponse → Bool
loop_free_after before [] = true
loop_free_after before (b ∷ bs) =
    not (already_sent before b.remote_addr) && loop_free_after (before ++ b ∷ []) bs

-- each hop of a search leads to an address that none of the hops before it touches
abbrev pub loop_free : List BalanceQueryResponse → Bool
loop_free list = loop_free_after [] list

loop_free_after-append :
    (before list : List BalanceQueryResponse) (b : BalanceQueryResponse)
    → loop_free_after before list ≡ true
    → already_sent (before ++ list) b.remote_addr ≡ false
    → loop_free_after before (list ++ b ∷ []) ≡ true
loop_free_after-append before [] b h new =
    ground (arith, ap (λ l. already_sent l b.remote_addr) (sym (append-nil before)) ∙ new)
loop_free_after-append before (x ∷ xs) b h new =
    let later = ap (λ l. already_sent l b.remote_addr) (append_assoc before (x ∷ []) xs) ∙ new in
    ground (arith, loop_free_after-append (before ++ x ∷ []) xs b, later)

abbrev pub query_loop_free : RouterNetworkMessage → Bool
query_loop_free (ant_query m) = loop_free m.balance_query_response_list
query_loop_free _ = true

abbrev pub AllLoopFree : AntRouterInner → Type 0
AllLoopFree s = All (λ t. query_loop_free t.1 ≡ true) s.sent

All-append :
    (P : ℕ × RouterNetworkMessage → Type 0) (ts : List (ℕ × RouterNetworkMessage))
    (t : ℕ × RouterNetworkMessage)
    → All P ts
    → P t
    → All P (ts ++ t ∷ [])
All-append P [] t h p = (p, tt)
All-append P (u ∷ ts) t h p = (h.0, All-append P ts t h.1 p)

abbrev LoopFree : {A : Type 0} → Search A → Type 0
LoopFree m = Keeps AllLoopFree m

send-LoopFree :
    (to : ℕ) (message : RouterNetworkMessage)
    → query_loop_free message ≡ true
    → LoopFree (modify (send to message))
unfolding send modify
send-LoopFree to message e = record {
  at = λ s h. All-append (λ t. query_loop_free t.1 ≡ true) s.sent (to, message) h e;
}

remote_of :
    (node : Node) (participant : ℕ) {b : BalanceQueryResponse}
    → own_balance node participant ≡ ok b
    → b.remote_addr ≡ participant
unfolding own_balance
remote_of node participant h = ground arith

module _ (node : Node) (s : SValue) (peer_id : ℕ) (list : List BalanceQueryResponse)
    (free : loop_free list ≡ true) where
  send_to-LoopFree : (channels : List ℕ) → LoopFree (send_to node s peer_id list channels)
  unfolding send_to
  send_to-LoopFree [] = Keeps-pure tt
  send_to-LoopFree (participant ∷ channels) = elim (Bool-cases (already_sent list participant)) [
    | inl met ↦ rw met (send_to-LoopFree channels)
    | inr new ↦ rw new (
        Keeps-lift-bind (own_balance node participant) _ (λ b e.
          Keeps-bind _ _
            (send-LoopFree participant _ (
              loop_free_after-append [] list b free
                (ap (already_sent list) (remote_of node participant e) ∙ new)))
            (λ _. send_to-LoopFree channels)))
  ]

  send_ant_query_message-LoopFree : LoopFree (send_ant_query_message node s peer_id list)
  unfolding send_ant_query_message
  send_ant_query_message-LoopFree =
      Keeps-bind _ _ (Keeps-lift _) (λ channels. send_to-LoopFree channels)

modify_seeds-LoopFree :
    (f : AntRouterInner → AntRouterInner)
    → ((s : AntRouterInner) → (f s).sent ≡ s.sent)
    → LoopFree (modify f)
unfolding modify
modify_seeds-LoopFree f e = record {
  at = λ s h. subst (All (λ t. query_loop_free t.1 ≡ true)) (sym (e s)) h;
}

match_seed-LoopFree : (node : Node) (message : AntQueryMessage) → LoopFree (match_seed node message)
unfolding match_seed
match_seed-LoopFree node message = Keeps-bind _ _ (Keeps-gets _) (λ seeds.
    Keeps-bind _ _ (Keeps-lift _)
      (λ found. Keeps-bind _ _ (modify_seeds-LoopFree _ (λ s. refl)) (λ _. Keeps-pure found.0)))

answer_query-LoopFree :
    (node : Node) (message : AntQueryMessage) (found : Option (List BalanceQueryResponse))
    → loop_free message.balance_query_response_list ≡ true
    → LoopFree (answer_query node message found)
unfolding answer_query
answer_query-LoopFree node message (some t) e = send-LoopFree _ _ refl
answer_query-LoopFree node message none e =
    send_ant_query_message-LoopFree node message.s_value message.sender_addr
      message.balance_query_response_list e

-- A search goes round in no circle: a node that has asked on only along hops which each lead to a
-- new address, and is asked along such hops, asks on only along such hops, whatever its wallet
-- answers and wherever that fails.
pub handle_ant_query_message-AllLoopFree :
    (node : Node) (message : AntQueryMessage) (s : AntRouterInner)
    → loop_free message.balance_query_response_list ≡ true
    → AllLoopFree s
    → AllLoopFree (handle_ant_query_message node message s).1
unfolding handle_ant_query_message
handle_ant_query_message-AllLoopFree node message s e =
    (Keeps-bind (match_seed node message) _ (match_seed-LoopFree node message)
        (λ found. answer_query-LoopFree node message found e)).at
      s
