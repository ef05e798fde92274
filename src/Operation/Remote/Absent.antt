-- ===== src/Operation/Remote/Absent.antt =====
-- trsync/src/operation/executor/remote/absent.rs
use trsync.Base.{not, List, [], ◌∷◌, Outcome, ok, err}
use trsync.Core.Types.{ContentId, FilePath}
use trsync.Core.Content.{RemoteContent}
use trsync.Core.Error.{TracimClientError, content_not_found, tracim}
use trsync.Event.{RemoteEvent, Event}
use trsync.State.{State, StateModification}
use trsync.Operation.Host.{Host}
use trsync.Operation.Exec.{
  Exec, pure, raise, ◌>>=◌, ◌>>◌, lift, attempt, call, push, when, context, expect,
}

module _ (H : Host) (T : State) (s : T.Store) where
  -- After the content has been found on the server.
  unfoldable pub trash : ContentId → RemoteContent → Exec H (List StateModification)
  trash id remote = do
    call context (H.trash_content id)
    when (not remote.is_deleted) (push (Event.remote (RemoteEvent.deleted id)))
    pure (StateModification.forgot id ∷ [])

  unfoldable pub absent_on :
      ContentId → Outcome TracimClientError RemoteContent → Exec H (List StateModification)
  unfolding trash
  absent_on id (ok remote) = trash id remote
  absent_on id (err content_not_found) = pure (StateModification.forgot id ∷ [])
  absent_on id (err e) = raise (tracim e)

  -- `AbsentFromRemoteExecutor::execute`
  unfoldable pub absent_from_remote : FilePath → Exec H (List StateModification)
  unfolding absent_on
  absent_from_remote db_path = do
    found ← lift context (T.content_id_for_path s db_path)
    id ← expect found
    _ ← lift context (T.get s id)
    remote ← attempt (H.get_content id)
    absent_on id remote
