-- ===== src/Runner/Politic.antt =====
-- core/src/sync.rs and core/src/control.rs: whether the user is asked before the startup synchronization. The
-- lock and the channels are parameters.
use trsync.Base.{Bool, true, false, Option, none, some, List, Outcome, ok, err, ◌&&◌}
use trsync.Core.Change.Local.{LocalChange}
use trsync.Core.Change.Remote.{RemoteChange}

pub data SyncPoliticError : Type 0 where
  unable_to_send_changes unable_to_send_user_confirmation_request unable_to_receive_changes :
      SyncPoliticError

pub data RemoteControlError : Type 0 where
  cant_make_confirmation_sync_politic : RemoteControlError

-- `AcceptAllSyncPolitic` and `ConfirmationSyncPolitic`, with the field `popup`
pub data SyncPolitic : Type 0 where
  accept_all : SyncPolitic
  confirmation : Bool → SyncPolitic

-- What `RemoteControl` says of the politic: the two channels may be missing.
pub record RemoteControl : Type 0 where
  pub sync_channels : Bool
  pub user_request_sender : Bool
  pub confirm_startup_sync : Bool
  pub popup_confirm_startup_sync : Bool

-- `RemoteControl::sync_politic`
unfoldable pub sync_politic : RemoteControl → Outcome RemoteControlError SyncPolitic
sync_politic control = elim control.confirm_startup_sync [
  | false ↦ ok accept_all
  | true ↦ elim (control.sync_channels && control.user_request_sender) [
    | true ↦ ok (confirmation control.popup_confirm_startup_sync)
    | false ↦ err cant_make_confirmation_sync_politic
  ]
]

-- The changes that the user is shown, the request for a window, which fails where nobody receives it, and the
-- decision, which is missing where the channel is closed.
pub record Channels : Type 1 where
  pub World : Type 0
  pub changes : World → Option (List RemoteChange × List LocalChange)
  pub set_changes : Option (List RemoteChange × List LocalChange) → World → World
  pub open_monitor_window : World → Bool × World
  pub receive_decision : World → Option Bool × World

module _ (C : Channels) where
  abbrev pub decided : Option Bool × C.World → Outcome SyncPoliticError Bool × C.World
  decided (none, w) = (err unable_to_receive_changes, w)
  decided (some decision, w) = (ok decision, w)

  -- `SyncPolitic::deal`
  unfoldable pub deal :
      SyncPolitic
      → List RemoteChange
      → List LocalChange
      → C.World
      → Outcome SyncPoliticError Bool × C.World
  deal accept_all remote_changes local_changes w = (ok true, w)
  deal (confirmation false) remote_changes local_changes w =
      decided (C.receive_decision (C.set_changes (some (remote_changes, local_changes)) w))
  deal (confirmation true) remote_changes local_changes w =
      let (sent, w') =
        C.open_monitor_window (C.set_changes (some (remote_changes, local_changes)) w) in
      elim sent [
        | false ↦ (err unable_to_send_user_confirmation_request, w')
        | true ↦ decided (C.receive_decision w')
      ]
