-- ===== src/Router/Search.antt =====
-- router/ant/src/lib.rs: the messages of a route search. What a node is asked of its wallet is a
-- parameter; a message that is sent before an error stays sent. The path store is the one of
-- router/ant/src/path_finder.rs.
pub mod Flood
pub mod Answers
pub mod Exchange
use stargate.Common.{
  ℕ, ◌+◌, ◌-◌, Bool, true, false, not, ◌&&◌, ◌||◌, Option, none, some, List, [], ◌∷◌, ◌++◌, ◌==◌,
  contains, if◌then◌else◌,
}
use stargate.Common.Dict.{Dict, get, contains_key, insert, remove}
use stargate.Common.Outcome.{Outcome, ok, err, panic, ok_or, expect}
use stargate.Libra.{Bytes}
use stargate.Common.Handler.{Handler, ◌>>=◌, ◌>>◌, pure, fail, lift, gets, modify}
use stargate.Router.Seeds.{SValue, SValueGenerator, get_r, match_or_add}
use stargate.Router.Paths.{BalanceQueryResponse}
use stargate.Router.Wallet.{Node, SearchError, wallet_error, own_balance}

pub record AntQueryMessage : Type 0 where
  pub s_value : SValue
  pub sender_addr : ℕ
  pub balance_query_response_list : List BalanceQueryResponse

pub record AntFinalMessage : Type 0 where
  pub r_value : ℕ
  pub balance_query_response_list : List BalanceQueryResponse

pub data RouterNetworkMessage : Type 0 where
  ant_query : AntQueryMessage → RouterNetworkMessage
  ant_final : AntFinalMessage → RouterNetworkMessage
  exchange_request : (sender_seed : ℕ) → RouterNetworkMessage
  exchange_response : SValueGenerator → RouterNetworkMessage
  balance_query : RouterNetworkMessage

pub record AntRouterInner : Type 0 where
  pub seed_hash_map : List (SValue × List BalanceQueryResponse)
  pub path_store : Dict (List AntFinalMessage)
  pub sent : List (ℕ × RouterNetworkMessage)

abbrev pub Search : Type 0 → Type 0
Search A = Handler AntRouterInner SearchError A

unfoldable pub send : ℕ → RouterNetworkMessage → AntRouterInner → AntRouterInner
send to message s = record s { sent = s.sent ++ (to, message) ∷ [] }

-- `already_send_set`
unfoldable pub already_sent : List BalanceQueryResponse → ℕ → Bool
already_sent [] a = false
already_sent (b ∷ balance_list) a =
    b.remote_addr == a || (b.local_addr == a || already_sent balance_list a)

-- the loop over the channels
unfoldable pub send_to : Node → SValue → ℕ → List BalanceQueryResponse → List ℕ → Search (Unit {0})
send_to node s peer_id balance_list [] = pure tt
send_to node s peer_id balance_list (participant ∷ channels) =
    let rest = send_to node s peer_id balance_list channels in
    if already_sent balance_list participant then rest else (do
      balance ← lift (own_balance node participant)
      modify (
          send participant (
            ant_query (record {
              s_value = s;
              sender_addr = peer_id;
              balance_query_response_list = balance_list ++ balance ∷ [];
            })))
      rest)

unfoldable pub send_ant_query_message :
    Node → SValue → ℕ → List BalanceQueryResponse → Search (Unit {0})
send_ant_query_message node s peer_id balance_list = do
  all_channels ← lift (ok_or wallet_error node.all_channels)
  send_to node s peer_id balance_list all_channels

-- SeedManager::match_or_add on the node's own map
unfoldable pub match_seed : Node → AntQueryMessage → Search (Option (List BalanceQueryResponse))
match_seed node message = do
  seeds ← gets (λ s. s.seed_hash_map)
  found ← lift (match_or_add node.meets seeds message.s_value message.balance_query_response_list)
  modify (λ s. record s { seed_hash_map = found.1 })
  pure found.0

unfoldable pub answer_query :
    Node → AntQueryMessage → Option (List BalanceQueryResponse) → Search (Unit {0})
answer_query node message (some t) = modify (
    send message.sender_addr (
      ant_final
        (record { r_value = get_r node.hash message.s_value; balance_query_response_list = t })))
answer_query node message none =
    send_ant_query_message node message.s_value message.sender_addr
      message.balance_query_response_list

unfoldable pub handle_ant_query_message : Node → AntQueryMessage → Search (Unit {0})
handle_ant_query_message node message = do
  found ← match_seed node message
  answer_query node message found

-- PathStore::add_path
unfoldable pub add_path :
    ℕ → AntFinalMessage → Dict (List AntFinalMessage) → Dict (List AntFinalMessage)
add_path r path m = elim (get m r) [
  | none ↦ insert r (path ∷ []) m
  | some paths ↦ insert r (paths ++ path ∷ []) (remove r m)
]

-- PathStore::take_path
unfoldable pub take_path :
    ℕ → Dict (List AntFinalMessage) → Option (List AntFinalMessage) × Dict (List AntFinalMessage)
take_path r m = (get m r, remove r m)

unfoldable pub handle_ant_final_message : AntFinalMessage → Search (Unit {0})
handle_ant_final_message response =
    modify (λ s. record s { path_store = add_path response.r_value response s.path_store })
