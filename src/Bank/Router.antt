-- ===== src/Bank/Router.antt =====
-- The example's command router (command-router.ts): which aggregate a command goes to, under which id.
use instructed.Prelude.{String, [], ◌∷◌}
use instructed.Result.{Result}
use instructed.Facade.{CommandRoute, CommandTarget, command_router}
use instructed.Bank.{
  open_account, deposit_to_account, withdraw_from_account, request_transfer,
  mark_transfer_completed, mark_transfer_failed, account, transfer,
}
use instructed.Bank.Saga.{DispatchedCommand, to_account, to_transfer}

abbrev pub command_type : DispatchedCommand → String
command_type (to_account (open_account _ _)) = "OpenAccount"
command_type (to_account (deposit_to_account _ _ _)) = "DepositToAccount"
command_type (to_account (withdraw_from_account _ _ _ _)) = "WithdrawFromAccount"
command_type (to_transfer (request_transfer _ _ _ _)) = "RequestTransfer"
command_type (to_transfer (mark_transfer_completed _)) = "MarkTransferCompleted"
command_type (to_transfer (mark_transfer_failed _ _)) = "MarkTransferFailed"

-- `c.accountId` and `c.transferId`. The types keep a route's closure from a command without its field; there the
-- text of `undefined` stands.
abbrev pub account_id : DispatchedCommand → String
account_id (to_account (open_account id _)) = id
account_id (to_account (deposit_to_account id _ _)) = id
account_id (to_account (withdraw_from_account id _ _ _)) = id
account_id (to_transfer _) = "undefined"

abbrev pub transfer_id : DispatchedCommand → String
transfer_id (to_transfer (request_transfer id _ _ _)) = id
transfer_id (to_transfer (mark_transfer_completed id)) = id
transfer_id (to_transfer (mark_transfer_failed id _)) = id
transfer_id (to_account _) = "undefined"

abbrev pub route_to :
    String → String → (DispatchedCommand → String) → CommandRoute DispatchedCommand
route_to type aggregate id = record { command_type = type; aggregate_type = aggregate; id = id }

abbrev pub app_command_router : DispatchedCommand → Result CommandTarget
app_command_router = command_router command_type (
    route_to "OpenAccount" account.type (λ c. account_id c)
    ∷ route_to "DepositToAccount" account.type (λ c. account_id c)
    ∷ route_to "WithdrawFromAccount" account.type (λ c. account_id c)
    ∷ route_to "RequestTransfer" transfer.type (λ c. transfer_id c)
    ∷ route_to "MarkTransferCompleted" transfer.type (λ c. transfer_id c)
    ∷ route_to "MarkTransferFailed" transfer.type (λ c. transfer_id c)
    ∷ [])
