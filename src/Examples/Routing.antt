-- ===== src/Examples/Routing.antt =====
-- Runs of the router on concrete inputs.
use stargate.Common.{
  ℕ, ◌≡◌, ◌≤◌, refl, Bool, true, false, none, some, List, [], ◌∷◌, ◌++◌, map, ◌==◌, all, All,
  ==-self, inl, length, if◌then◌else◌,
}
use stargate.Common.Outcome.{ok}
use stargate.Common.Integers.{ltℤ, diff, ◌+ℤ◌}
use stargate.Router.Stats
use stargate.Router.Stats.{
  DirectedChannel, PaymentInfo, paying, payed, StatsInner, done, waits, handle_data_message,
  payment_pressure, start, sum, stats_of,
}
use stargate.Router.Stats.Pressure.{is_payed, start_blocks}
use stargate.Router.Seeds.{
  SValue, SValueGenerator, get_peer, get_s, get_r, generator_r, eq, is_sender, contains_key,
  match_or_add,
}
use stargate.Router.Seeds
use stargate.Router.Seeds.Meeting.{match_or_add-peer}
use stargate.Router.Paths.{
  BalanceQueryResponse, take_last, find_response, walk, format_response_list, pressure_of,
  pressure_from, revert, find_path_by_pressure,
}
use stargate.Router.Wallet.{Node}
use stargate.Common.Dict.{get}
use stargate.Common.Handler.{lift, modify, pure, ◌>>=◌}
use stargate.Router.Wallet.{own_balance}
use stargate.Router.Search.Answers.{joined, answers_of}
use stargate.Router.Search.Exchange.{find_path, choose}
use stargate.Router.Search.Exchange.Found.{receive, find_path-answers}
use stargate.Router.Search.{
  send, send_to, send_ant_query_message, exchange_request, already_sent, AntQueryMessage,
  AntFinalMessage, AntRouterInner, handle_ant_query_message,
}
use stargate.Router.Search.Flood.{AllLoopFree, handle_ant_query_message-AllLoopFree}
use stargate.Router.Paths.Picks.{IsFrom}
use stargate.Router.Paths.Walks.{IsWalk, format_response_list-IsWalk, format_response_list-step}
use stargate.Router.Paths.Least.{IsOneOf, find_path_by_pressure-least}

abbrev payment : ℕ → PaymentInfo
payment hash_value = record { hash_value = hash_value; amount = 40; kind = paying }

abbrev messages : List (DirectedChannel × PaymentInfo)
messages = ((1, 2), record { hash_value = 5; amount = 0; kind = payed }) ∷ ((1, 2), payment 6) ∷ []

start_blocks_example :
    start Stats.new messages ≡ (if all is_payed messages then done Stats.new else waits)
start_blocks_example = start_blocks messages

abbrev busy : StatsInner
busy = record { user_channel_stats = ((1, 2), (5, 30) ∷ []) ∷ []; is_locked = false }

abbrev generator : SValueGenerator
generator = record { sender_r = 1_000; receiver_r = 77 }

-- lookups that come across an entry of the same side only
abbrev by_side : SValue → SValue → Bool
by_side a b = a.side == b.side

abbrev sender : SValue
sender = record { side = 0; value = 9 ∷ 8 ∷ [] }

abbrev ones : List ℕ
ones = 1 ∷ []

match_or_add-peer_example :
    (match_or_add {R = ℕ} by_side {E = Unit {0}} [] sender ones
      ≡ ok (none, Seeds.insert by_side [] sender ones))
    × (match_or_add {R = ℕ} by_side {E = Unit {0}}
          (Seeds.insert by_side [] sender ones)
          (get_peer sender)
          (2 ∷ [])
        ≡ (if by_side (get_peer sender) sender
            then ok (none, Seeds.insert by_side [] sender ones)
            else ok (some (ones ++ (2 ∷ [])), [])))
unfolding contains_key
match_or_add-peer_example =
    match_or_add-peer by_side [] sender ones (2 ∷ []) (λ k. ==-self k.side) (inl refl) refl refl

abbrev hop : ℕ → ℕ → ℕ → BalanceQueryResponse
hop a b remote = record {
  local_addr = a;
  remote_addr = b;
  local_balance = 10;
  remote_balance = remote;
  total_pay_amount = 1;
}

-- from 1 to 3 over 2, with the second answer given from the other side
abbrev answers : List BalanceQueryResponse
answers = hop 1 2 4 ∷ hop 3 2 5 ∷ []

abbrev longer : List BalanceQueryResponse
longer = hop 1 4 40 ∷ hop 4 3 50 ∷ []

format_response_list-IsWalk_example :
    IsWalk 1 (format_response_list answers 1 3)
    × All (IsFrom answers) (format_response_list answers 1 3)
    × (length (format_response_list answers 1 3) ≤ length answers)
format_response_list-IsWalk_example = format_response_list-IsWalk answers 1 3

format_response_list-step_example :
    format_response_list answers 1 3 ≡ elim (find_response 1 answers) [
      | none ↦ []
      | some (r, rest) ↦
          r ∷ (if r.remote_addr == 3 then [] else format_response_list rest r.remote_addr 3)
    ]
format_response_list-step_example = format_response_list-step answers 1 3

find_path_by_pressure-least_example :
    (path : List BalanceQueryResponse) × (find_path_by_pressure (longer ∷ answers ∷ []) 1 3
      ≡ ok path)
    × IsOneOf path (map (λ l. format_response_list l 1 3) (longer ∷ answers ∷ []))
    × All
        (λ r. ltℤ (pressure_of r) (pressure_of path) ≡ false)
        (map (λ l. format_response_list l 1 3) (longer ∷ answers ∷ []))
unfolding format_response_list walk find_response take_last pressure_of pressure_from diff ◌+ℤ◌
    revert
find_path_by_pressure-least_example =
    find_path_by_pressure-least longer (answers ∷ []) 1 3 (refl, (refl, tt))

abbrev node : Node
node = record {
  account = 2;
  all_channels = some (1 ∷ 3 ∷ []);
  channel_balance = λ _. some 10;
  participant_channel_balance = λ _. some 20;
  back_pressure = λ _ _. some 0;
  hash = length;
  meets = by_side;
}

abbrev inner : AntRouterInner
inner = record { seed_hash_map = []; path_store = []; sent = [] }

-- 1 has asked 2
abbrev query : AntQueryMessage
query = record { s_value = sender; sender_addr = 1; balance_query_response_list = hop 1 2 4 ∷ [] }

handle_ant_query_message-AllLoopFree_example :
    AllLoopFree (handle_ant_query_message node query inner).1
unfolding already_sent
handle_ant_query_message-AllLoopFree_example =
    handle_ant_query_message-AllLoopFree node query inner refl tt

abbrev final : ℕ → AntFinalMessage
final r = record { r_value = r; balance_query_response_list = answers }

abbrev asking : Node
asking = record node { account = 1; all_channels = some (2 ∷ []) }

abbrev seeds : SValueGenerator
seeds = record { sender_r = 5; receiver_r = 7 }

-- an answer of this search between answers of others
abbrev final_messages : List AntFinalMessage
final_messages =
    record { r_value = 9; balance_query_response_list = [] }
    ∷ record { r_value = 32; balance_query_response_list = answers }
    ∷ record { r_value = 8; balance_query_response_list = longer }
    ∷ []

abbrev asked : AntRouterInner
asked =
    (send_ant_query_message asking (get_s seeds true) 1 [] (send 3 (exchange_request 5) inner)).1

sent_out :
    send_ant_query_message asking (get_s seeds true) 1 [] (send 3 (exchange_request 5) inner)
    ≡ (ok tt, asked)
unfolding send_ant_query_message send_to already_sent own_balance lift modify pure ◌>>=◌
sent_out = refl

new_key : get asked.path_store (get_r asking.hash (get_s seeds true)) ≡ none
unfolding send_ant_query_message send_to already_sent own_balance lift modify pure ◌>>=◌ get send
new_key = refl

find_path-answers_example :
    (find_path asking (λ s. s) (receive final_messages) 5 (some seeds) 1 3 inner).0
    ≡ choose (joined none (answers_of (get_r asking.hash (get_s seeds true)) final_messages)) 1 3
find_path-answers_example =
    find_path-answers asking (λ s. s) final_messages 5 1 3 seeds inner asked sent_out new_key
