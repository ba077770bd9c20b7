-- ===== src/Channel/Open.antt =====
-- sgwallet/src/channel/mod.rs, `load`: a channel as it stands after its database is opened.
use stargate.Common.{ℕ, Bool, true, false, List, [], ◌∷◌}
use stargate.Common.Outcome.{Outcome, ok, ◌>>=◌, ◌>>◌, assert}
use stargate.Stm
use stargate.Store.{StorageError, ChannelStore}
use stargate.Store.Read
use stargate.Store.Applier
use stargate.Channel.{Channel}

-- an account with its key pair
pub record Account : Type 0 where
  pub address : ℕ
  pub private_key : ℕ
  pub public_key : ℕ

abbrev pub has_participants : List ℕ → Bool
has_participants [] = false
has_participants (_ ∷ _) = true

abbrev pub unstarted : Account → ℕ → ChannelStore → Applier.TxApplier → Channel
unstarted account channel_address store tx_applier = record {
  store = store;
  applier = tx_applier;
  stm =
      Stm.new channel_address account.address (Read.participant_addresses store) account.private_key
        account.public_key;
  stopping = false;
  effects = [];
}

-- Channel::load, once its store is open
unfoldable pub of_store : Account → ℕ → ChannelStore → Outcome StorageError Channel
of_store account channel_address store = do
  assert (has_participants (Read.participant_addresses store))
  tx_applier ← Applier.new store
  ok (unstarted account channel_address store tx_applier)
