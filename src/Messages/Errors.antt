-- ===== src/Messages/Errors.antt =====
-- sgtypes/src/sg_error.rs, and ErrorMessage of sgtypes/src/message.rs: the errors that nodes tell each
-- other.
use stargate.Common.{ℕ}
use stargate.Common.Text.{codes}
use stargate.Libra.{Bytes}

pub data SgErrorCode : Type 0 where
  unknown sequence_number_wrong timeout channel_not_exist : SgErrorCode
  invalid_channel_stage reject not_path balance_not_enough : SgErrorCode

pub record SgError : Type 0 where
  pub error_code : SgErrorCode
  pub error_message : Bytes

pub record ErrorMessage : Type 0 where
  pub raw_transaction_hash : ℕ
  pub error : SgError

-- what a future gives when its sender is gone
abbrev pub time_out : SgError
time_out = record { error_code = timeout; error_message = codes "future time out" }
