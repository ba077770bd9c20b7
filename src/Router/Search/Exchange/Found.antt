-- ===== src/Router/Search/Exchange/Found.antt =====
-- router/ant/src/lib.rs: what a search finds.
use stargate.Common.{ℕ, ◌≡◌, refl, ap, ◌∙◌, true, none, some, List, [], ◌∷◌}
use stargate.Common.Dict.{get}
use stargate.Common.Outcome.{ok}
use stargate.Common.Handler.{modify, lift, run-bind, run-gets, run-lift}
use stargate.Router.Seeds.{SValueGenerator, get_s, generator_r, get_r}
use stargate.Router.Wallet.{Node}
use stargate.Router.Search.{
  AntFinalMessage, AntRouterInner, exchange_request, send, send_ant_query_message, take_path,
  handle_ant_final_message,
}
use stargate.Router.Search.Answers.{add_paths, answers_of, joined, take_path-add_paths}
use stargate.Router.Search.Exchange.{find_path, choose}

-- the answers to searches that a node gets one after another
unfoldable pub receive : List AntFinalMessage → AntRouterInner → AntRouterInner
receive [] s = s
receive (response ∷ responses) s = receive responses (handle_ant_final_message response s).1

received :
    (responses : List AntFinalMessage) (s : AntRouterInner)
    → (receive responses s).path_store ≡ add_paths responses s.path_store
unfolding receive handle_ant_final_message modify
received [] s = refl
received (response ∷ responses) s = received responses _

-- Whatever the node handles until the other end answers, and whatever answers it gets after that, of
-- this search and of others: once the other end has answered and the search has been sent out, where
-- nothing was stored under the key of the search, the path is chosen among the answers that bear this
-- key, all of them and no others, and is an error when there are none.
pub find_path-answers :
    (node : Node) (before : AntRouterInner → AntRouterInner) (responses : List AntFinalMessage)
    (sender_seed start end : ℕ) (generator : SValueGenerator) (s t : AntRouterInner)
    → send_ant_query_message node
        (get_s generator true)
        start
        []
        (before (send end (exchange_request sender_seed) s))
      ≡ (ok tt, t)
    → get t.path_store (get_r node.hash (get_s generator true)) ≡ none
    → (find_path node before (receive responses) sender_seed (some generator) start end s).0
      ≡ choose
          (joined none (answers_of (get_r node.hash (get_s generator true)) responses))
          start
          end
unfolding find_path modify lift get_r get_s generator_r
find_path-answers node before responses sender_seed start end generator s t sent fresh =
    let r = get_r node.hash (get_s generator true) in
    ap (λ p. p.0)
      (run-bind _ _ s refl
        ∙ run-bind _ _ _ refl
        ∙ run-lift _ _ _ refl
        ∙ run-bind _ _ _ sent
        ∙ run-bind _ _ _ refl
        ∙ run-gets _ _ _ refl
        ∙ run-bind _ _ _ refl)
    ∙ ap (λ o. choose o start end)
        (ap (λ m. (take_path r m).0) (received responses t)
          ∙ (take_path-add_paths r responses t.path_store).0
          ∙ ap (λ o. joined o (answers_of r responses)) fresh)
