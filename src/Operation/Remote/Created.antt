-- ===== src/Operation/Remote/Created.antt =====
-- trsync/src/operation/executor/remote/created.rs
use trsync.Base.{
  Bool, true, false, not, Option, none, some, List, [], ◌∷◌, ◌++◌, Outcome, ok, err, ◌==◌,
  string_eq, option_eq,
}
use trsync.Core.Types.{
  ContentId, FileName, FilePath, ContentType, file, folder, html_document, parent, file_name,
  from_path, fillable,
}
use trsync.Core.Content.{from_remote}
use trsync.Core.Error.{
  TracimClientError, content_already_exist, ExecutorError, unexpected, tracim,
  related_local_file_io_error,
}
use trsync.Event.{RemoteEvent, Event}
use trsync.State.{State, StateModification}
use trsync.Operation.Host.{Host}
use trsync.Operation.Exec.{
  Exec, pure, raise, ◌>>=◌, ◌>>◌, lift, attempt, call, look, push, when, context, expect,
}

module _ (H : Host) where
  -- The content that is on the server after the attempt to create it, and whether it was there
  -- before.
  unfoldable pub created_or_found :
      FileName → Option ContentId → Outcome TracimClientError ContentId → Exec H (ContentId × Bool)
  created_or_found name parent_id (ok id) = do
    push (Event.remote (RemoteEvent.created id))
    pure (id, false)
  created_or_found name parent_id (err content_already_exist) = do
    found ← call context (H.find_one name parent_id)
    id ← expect found
    pure (id, true)
  created_or_found name parent_id (err e) = raise (tracim e)

  -- Whether a content that was there before is to be filled: its bytes differ from the file's.
  unfoldable pub differs : ContentType → ContentId → FilePath → Exec H Bool
  differs file id absolute_path = do
    temp ← call context H.temp_file
    call tracim (H.fill_file_with_content id file temp)
    remote_sum ← look (λ w. H.md5_file w temp)
    local_sum ← look (λ w. H.md5_file w absolute_path)
    call context (H.close_temp temp)
    pure (not (remote_sum == local_sum))
  differs html_document id absolute_path = do
    remote ← call tracim (H.get_content id)
    read ← look (λ w. H.read_to_string w absolute_path)
    local ← lift (λ _. related_local_file_io_error absolute_path) read
    pure (not (some local == remote.raw_content))
  differs folder id absolute_path = pure false

  unfoldable pub do_update : Bool → ContentType → ContentId → FilePath → Exec H Bool
  unfolding differs
  do_update true type_ id absolute_path = differs type_ id absolute_path
  do_update false type_ id absolute_path = pure true

  unfoldable pub fill : ContentType → ContentId → FilePath → Exec H (Unit {0})
  fill type_ id absolute_path = do
    call context (H.fill_content_with_file id type_ absolute_path)
    push (Event.remote (RemoteEvent.updated id))

  module _ (T : State) (workspace_folder : FilePath) (s : T.Store) where
    -- `CreatedOnRemoteExecutor::parent`
    unfoldable pub parent_id_of : FilePath → Outcome ExecutorError (Option ContentId)
    parent_id_of path = elim (parent path) [
      | none ↦ ok none
      | some parent_path ↦ elim (T.content_id_for_path s parent_path) [
        | ok found ↦ ok found
        | err e ↦ err unexpected
      ]
    ]

    -- `CreatedOnRemoteExecutor::execute`; the field `avoid_same_sums` is never read.
    unfoldable pub created_on_remote : FilePath → Exec H (List StateModification)
    unfolding created_or_found do_update fill parent_id_of file_name from_path fillable from_remote
    created_on_remote path = do
      let absolute_path = workspace_folder ++ path
      name ← expect (file_name path)
      parent_id ← lift (λ e. e) (parent_id_of path)
      dir ← look (λ w. H.is_dir w absolute_path)
      let type_ = from_path dir absolute_path
      created ← attempt (H.create_content name type_ parent_id absolute_path)
      (id, previously_exist) ← created_or_found name parent_id created
      when (fillable type_) (do
        wanted ← do_update previously_exist type_ id absolute_path
        when wanted (fill type_ id absolute_path))
      remote ← call context (H.get_content id)
      content ← lift context (from_remote remote)
      time ← look (λ w. H.last_modified_timestamp w absolute_path)
      disk_timestamp ← lift context time
      pure (StateModification.add content path disk_timestamp ∷ [])
