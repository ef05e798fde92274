-- ===== src/Operation/Remote/Modified.antt =====
-- trsync/src/operation/executor/remote/modified.rs
use trsync.Base.{List, [], ◌∷◌, ◌++◌, Outcome, ok, err}
use trsync.Core.Types.{ContentId, FilePath, ContentType, fillable, DiskTimestamp}
use trsync.Core.Content.{from_remote}
use trsync.Core.Error.{TracimClientError, unknown, content_deleted_or_archived, tracim}
use trsync.Event.{RemoteEvent, Event}
use trsync.State.{State, StateModification}
use trsync.State.Path.{to_path_buf}
use trsync.Operation.Host.{Host}
use trsync.Operation.Exec.{
  Exec, pure, ◌>>=◌, ◌>>◌, lift, attempt, call, look, push, when, context, expect,
}

-- `.context(…)?` in a function that fails with a client's error: `From<anyhow::Error>` makes an
-- unknown error of whatever error it was.
abbrev pub client_context {ℓ} :
    {A : Type ℓ} → Outcome TracimClientError A → Outcome TracimClientError (Unit {0})
client_context (ok _) = ok tt
client_context (err e) = err unknown

module _ (H : Host) where
  unfoldable pub push_on_ok :
      Event → Outcome TracimClientError (Unit {0}) → Exec H (Outcome TracimClientError (Unit {0}))
  push_on_ok event (ok _) = do push event; pure (ok tt)
  push_on_ok event (err e) = pure (err e)

  unfoldable pub update_content :
      ContentId → ContentType → FilePath → Exec H (Outcome TracimClientError (Unit {0}))
  unfolding push_on_ok
  update_content id type_ absolute_path = do
    filled ← attempt (H.fill_content_with_file id type_ absolute_path)
    push_on_ok (Event.remote (RemoteEvent.updated id)) (client_context filled)

  unfoldable pub restore_content : ContentId → Exec H (Outcome TracimClientError (Unit {0}))
  unfolding push_on_ok
  restore_content id = do
    restored ← attempt (H.restore_content id)
    push_on_ok (Event.remote (RemoteEvent.created id)) (client_context restored)

  -- `if let Err(ContentDeletedOrArchived) = …`: any other error is passed over.
  unfoldable pub after_update :
      ContentId → ContentType → FilePath → Outcome TracimClientError (Unit {0}) → Exec H (Unit {0})
  unfolding update_content restore_content
  after_update id type_ absolute_path (err content_deleted_or_archived) = do
    restored ← restore_content id
    _ ← lift tracim restored
    updated ← update_content id type_ absolute_path
    lift tracim updated
  after_update id type_ absolute_path _ = pure tt

  module _ (T : State) (workspace_folder : FilePath) (s : T.Store) where
    -- The methods `content_id` and `absolute_path`, the latter of the content's path in the state.
    unfoldable pub content_id : FilePath → Exec H ContentId
    content_id db_path = do found ← lift context (T.content_id_for_path s db_path); expect found

    unfoldable pub absolute_path_of : FilePath → Exec H FilePath
    unfolding content_id to_path_buf
    absolute_path_of db_path = do
      id ← content_id db_path
      parts ← lift context (T.path s id)
      pure (workspace_folder ++ to_path_buf parts)

    unfoldable pub content_type_of : FilePath → Exec H ContentType
    unfolding content_id
    content_type_of db_path = do
      id ← content_id db_path
      found ← lift context (T.get s id)
      content ← expect found
      pure content.type_

    unfoldable pub last_modified : FilePath → Exec H DiskTimestamp
    unfolding absolute_path_of
    last_modified db_path = do
      absolute_path ← absolute_path_of db_path
      time ← look (λ w. H.last_modified_timestamp w absolute_path)
      lift context time

    -- `ModifiedOnRemoteExecutor::execute`
    unfoldable pub modified_on_remote : FilePath → Exec H (List StateModification)
    unfolding absolute_path_of content_type_of content_id update_content after_update last_modified
        fillable from_remote
    modified_on_remote db_path = do
      absolute_path ← absolute_path_of db_path
      type_ ← content_type_of db_path
      id ← content_id db_path
      when (fillable type_) (do
        updated ← update_content id type_ absolute_path
        after_update id type_ absolute_path updated)
      remote ← call context (H.get_content id)
      content ← lift context (from_remote remote)
      disk_timestamp ← last_modified db_path
      pure (
          StateModification.update content.id content.file_name content.revision_id
            content.parent_id disk_timestamp
          ∷ [])
