-- ===== src/Router/Search/Exchange.antt =====
-- router/ant/src/lib.rs: a search from the exchange of seeds to the path that is chosen, and the router
-- that asks the table router first.
pub mod Found
use stargate.Common.{ℕ, Bool, true, false, Option, none, some, List, [], ◌∷◌, map}
use stargate.Common.Outcome.{Outcome, ok, err, panic, ok_or}
use stargate.Common.Handler.{◌>>=◌, ◌>>◌, pure, fail, lift, gets, modify}
use stargate.Router.Seeds.{SValue, SValueGenerator, get_s, generator_r}
use stargate.Router.Paths.{BalanceQueryResponse, find_path_by_pressure, NoPath}
use stargate.Router.Wallet.{Node, SearchError, no_path_found, time_out, should_not_be_here}
use stargate.Router.Search.{
  AntFinalMessage, RouterNetworkMessage, ant_query, ant_final, exchange_request, exchange_response,
  balance_query, AntRouterInner, Search, send, send_ant_query_message, handle_ant_query_message,
  handle_ant_final_message, take_path,
}

unfoldable pub handle_exchange_seed_message_request :
    Node → (receiver_seed sender_seed peer_id : ℕ) → Search (Unit {0})
handle_exchange_seed_message_request node receiver_seed sender_seed peer_id =
    let generator : SValueGenerator = record {
      sender_r = sender_seed;
      receiver_r = receiver_seed;
    } in
    (do
      send_ant_query_message node (get_s generator false) peer_id []
      modify (send peer_id (exchange_response generator)))

-- Of the exchange of seeds, the response goes to the future that waits for it: the argument `respond`.
unfoldable pub handle_network_msg :
    Node → ℕ → (AntRouterInner → AntRouterInner) → ℕ → RouterNetworkMessage → Search (Unit {0})
handle_network_msg node receiver_seed respond peer_id (exchange_response response) = modify respond
handle_network_msg node receiver_seed respond peer_id (ant_final response) =
    handle_ant_final_message response
handle_network_msg node receiver_seed respond peer_id (exchange_request sender_seed) =
    handle_exchange_seed_message_request node receiver_seed sender_seed peer_id
handle_network_msg node receiver_seed respond peer_id (ant_query message) =
    handle_ant_query_message node message
handle_network_msg node receiver_seed respond peer_id balance_query = fail should_not_be_here

abbrev pub lists : List AntFinalMessage → List (List BalanceQueryResponse)
lists responses = map (λ response. response.balance_query_response_list) responses

abbrev pub from_paths : {A : Type 0} → Outcome NoPath A → Outcome SearchError A
from_paths (ok a) = ok a
from_paths (err e) = err no_path_found
from_paths panic = panic

unfoldable pub choose :
    Option (List AntFinalMessage) → ℕ → ℕ → Outcome SearchError (List BalanceQueryResponse)
choose none start end = err no_path_found
choose (some responses) start end = from_paths (find_path_by_pressure (lists responses) start end)

-- AntRouterInner::find_path. While it waits for the answer of the other end and for the searches, the
-- node handles other messages: `before` and `meanwhile` are what these do. A time-out has no answer.
unfoldable pub find_path :
    Node
    → (before meanwhile : AntRouterInner → AntRouterInner) → (sender_seed : ℕ)
    → Option SValueGenerator
    → (start end : ℕ) → Search (List BalanceQueryResponse)
find_path node before meanwhile sender_seed answer start end = do
  modify (send end (exchange_request sender_seed))
  modify before
  generator ← lift (ok_or time_out answer)
  send_ant_query_message node (get_s generator true) start []
  modify meanwhile
  found ← gets (λ s. take_path (generator_r node.hash generator) s.path_store)
  modify (λ s. record s { path_store = found.1 })
  lift (choose found.0 start end)

-- MixRouter::find_path_by_addr
unfoldable pub find_path_by_addr :
    {E : Type 0}
    → Outcome E (List BalanceQueryResponse)
    → Search (List BalanceQueryResponse)
    → Search (List BalanceQueryResponse)
find_path_by_addr (ok []) by_ants = by_ants
find_path_by_addr (ok (r ∷ path)) by_ants = pure (r ∷ path)
find_path_by_addr (err e) by_ants = by_ants
find_path_by_addr panic by_ants = lift panic
