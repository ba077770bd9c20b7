-- ===== src/Channel/Agreed.antt =====
-- sgwallet/src/channel/channel.rs: the messages of the negotiation on a channel whose pending
-- transaction is agreed.
mod Still
mod Handlers
use mathlib.Core.Path.{subst}
use mathlib.Core.Bool.{decide}
use stargate.Common.{
  ℕ, ◌==◌, ◌≡◌, ◌⊎◌, refl, sym, ap, ◌∙◌, Bool, true, false, Option, none, some, List, [], ◌∷◌,
  arith, inl, inr, not, ◌&&◌, if◌then◌else◌,
}
use stargate.Common.Dict.{contains_key}
use stargate.Common.Outcome.{Outcome, ok, err, panic, ok-injective, ensure, >>=-eq-ok}
use stargate.Libra.{TransactionArgument}
use stargate.Proposal.{
  ChannelOp, ChannelTransactionProposal, ChannelTransactionSigs, PendingTransaction,
  PendingTransaction-discrete, ProposalLifecycle, created, negotiating, agreed, applying, traveling,
  add_signature, consensus_reached,
}
use stargate.Stm.{Error, Externals, ChannelStm}
use stargate.Stm.Build.{generate_proposal, generate_txn_sigs}
use stargate.Stm.Handle.{
  can_auto_sign_pending_proposal, handle_new_proposal, handle_proposal_signature, advance_lifecycle,
  verify_proposal,
}
use stargate.Stm.Handle.Agreement.{handled}
use stargate.Store.{ChannelTransactionInfo, AppliedChannelTxn, offchain, travel}
use stargate.Store.Read
use stargate.Channel.{Channel, World, ChannelHandler}
use stargate.Channel.Recovery.{
  Request, execute_op, collect, grant, cancel, apply_pending, watched, lock_timeout, stage_change,
  serve,
}
use stargate.Common.Handler.{
  Handler, Keeps, Keeps-pure, Keeps-fail, Keeps-lift, Keeps-gets, Keeps-bind, Keeps-lift-bind,
  Keeps-gets-bind, ◌>>=◌, ◌>>◌, pure, lift, gets, continue, keeps_rules,
}
use stargate.Channel.Persist.{
  pending_txn, save_over, save_pending_txn, check_applied, applied_up_to,
}
use stargate.Channel.Negotiate.{
  execute, auto_sign, collect_pending, collect_applied, collect_after, collect_proposal_with_sigs,
  open_of, open_pending, grant_proposal, cancel_pending_txn,
}
use Handlers.{execute-Still, collect-Still, grant-Still, cancel-Still}

-- whether a message is about the negotiation of a transaction
abbrev pub is_negotiation : Request → Bool
is_negotiation (execute_op _ _) = true
is_negotiation (collect _ _) = true
is_negotiation (grant _) = true
is_negotiation (cancel _) = true
is_negotiation _ = false

-- the messages that a channel handles one after another, each in a world of its own
unfoldable pub serve_all : List (World × Request) → Channel → Channel
serve_all [] c = c
serve_all ((w, r) ∷ messages) c = serve_all messages (serve w r c)

abbrev pub all_negotiate : List (World × Request) → Bool
all_negotiate [] = true
all_negotiate ((_, r) ∷ messages) = is_negotiation r && all_negotiate messages

serve-same :
    (w : World) (r : Request) (c : Channel) (p : PendingTransaction)
    → c.store.pending_txn ≡ some p
    → consensus_reached p ≡ true
    → is_negotiation r ≡ true
    → serve w r c ≡ c
unfolding serve
serve-same w (execute_op op args) c p has a h = (execute-Still w c p has a op args).at c refl
serve-same w (collect proposal sigs) c p has a h =
    (collect-Still w c p has a proposal sigs).at c refl
serve-same w (grant id) c p has a h = (grant-Still w c p has a id).at c refl
serve-same w (cancel id) c p has a h = (cancel-Still w c p has a id).at c refl
serve-same w apply_pending c p has a h = ground arith
serve-same w (watched _) c p has a h = ground arith
serve-same w (lock_timeout _ _) c p has a h = ground arith
serve-same w (stage_change _ _) c p has a h = ground arith

-- While a channel's pending transaction is agreed, no messages of the negotiation (an operation to
-- execute, a proposal to collect, a grant or a cancellation), in any number and order and from
-- whoever they come, change anything of the channel.
pub agreed_stays :
    (messages : List (World × Request)) (c : Channel) (p : PendingTransaction)
    → c.store.pending_txn ≡ some p
    → consensus_reached p ≡ true
    → all_negotiate messages ≡ true
    → serve_all messages c ≡ c
unfolding serve_all
agreed_stays [] c p has a h = refl
agreed_stays ((w, r) ∷ messages) c p has a h =
    ap (serve_all messages) (serve-same w r c p has a (ground arith))
    ∙ agreed_stays messages c p has a (ground arith)
