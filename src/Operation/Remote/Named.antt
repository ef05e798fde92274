-- ===== src/Operation/Remote/Named.antt =====
-- trsync/src/operation/executor/remote/named.rs
use trsync.Base.{
  Bool, true, false, not, Option, none, some, List, [], ◌∷◌, ◌++◌, Outcome, ok, err, ◌==◌,
  string_eq, list_eq, option_eq,
}
use trsync.Core.Types.{
  ContentId, RevisionId, FileName, FilePath, ContentType, content_type_eq, parent, file_name,
  from_path,
}
use trsync.Core.Content.{Content}
use trsync.Core.Error.{
  TracimClientError, content_already_exist, tracim, programmatic,
  not_found_after_content_already_exist,
}
use trsync.Event.{RemoteEvent, Event}
use trsync.State.{State, StateModification}
use trsync.Operation.Host.{Host}
use trsync.Operation.Exec.{
  Exec, pure, raise, ◌>>=◌, ◌>>◌, lift, attempt, call, look, push, when, context, expect,
}
use trsync.Operation.Remote.Modified.{content_id, absolute_path_of}
use trsync.Operation.Remote.Created.{parent_id_of}

module _ (H : Host) where
  -- The label, where the name has changed.
  unfoldable pub set_label :
      ContentId → ContentType → FileName → Bool → RevisionId → Exec H RevisionId
  set_label id type_ after false revision_id = pure revision_id
  set_label id type_ after true revision_id = do
    revision_id' ← call context (H.set_label id type_ after)
    push (Event.remote (RemoteEvent.updated id))
    pure revision_id'

  -- The content that is in the way goes to the trash, and the parent is set again.
  unfoldable pub replace :
      ContentId
      → FileName
      → Option ContentId
      → Option ContentId
      → Exec H (RevisionId × List StateModification)
  replace id name parent_id none = raise not_found_after_content_already_exist
  replace id name parent_id (some replaced) = do
    call tracim (H.trash_content replaced)
    push (Event.remote (RemoteEvent.deleted replaced))
    revision_id ← call tracim (H.set_parent id parent_id)
    pure (revision_id, StateModification.forgot replaced ∷ [])

  unfoldable pub after_set_parent :
      ContentId
      → FileName
      → Option ContentId
      → Outcome TracimClientError RevisionId
      → Exec H (RevisionId × List StateModification)
  unfolding replace
  after_set_parent id name parent_id (ok revision_id) = pure (revision_id, [])
  after_set_parent id name parent_id (err content_already_exist) = do
    found ← call tracim (H.find_one name parent_id)
    replace id name parent_id found
  after_set_parent id name parent_id (err e) = raise (tracim e)

  -- The parent, where the folder has changed.
  unfoldable pub set_parent :
      ContentId
      → FileName
      → Option ContentId
      → Bool
      → RevisionId
      → Exec H (RevisionId × List StateModification)
  unfolding after_set_parent
  set_parent id name parent_id false revision_id = pure (revision_id, [])
  set_parent id name parent_id true revision_id = do
    tried ← attempt (H.set_parent id parent_id)
    r ← after_set_parent id name parent_id tried
    push (Event.remote (RemoteEvent.updated id))
    pure r

  module _ (T : State) (workspace_folder : FilePath) (s : T.Store) where
    unfoldable pub before_content : FilePath → Exec H Content
    unfolding content_id
    before_content previous_db_path = do
      id ← content_id H T workspace_folder s previous_db_path
      found ← lift context (T.get s id)
      expect found

    -- `NamedOnRemoteExecutor::execute`
    unfoldable pub named_on_remote : FilePath → FilePath → Exec H (List StateModification)
    unfolding absolute_path_of before_content content_id set_label set_parent parent_id_of from_path
        file_name
    named_on_remote previous_db_path after_disk_path = do
      before_absolute_path ← absolute_path_of H T workspace_folder s previous_db_path
      let after_absolute_path = workspace_folder ++ after_disk_path
      before ← before_content previous_db_path
      after_file_name ← expect (file_name after_absolute_path)
      after_parent ← lift (λ e. e) (parent_id_of H T workspace_folder s after_disk_path)
      before_dir ← look (λ w. H.is_dir w before_absolute_path)
      after_dir ← look (λ w. H.is_dir w after_absolute_path)
      id ← content_id H T workspace_folder s previous_db_path
      let after_type = from_path after_dir after_absolute_path
      when (not (from_path before_dir before_absolute_path == after_type)) (raise programmatic)
      let renamed = not (before.file_name == after_file_name)
      labelled ← set_label id after_type after_file_name renamed before.revision_id
      let moved = not (parent after_absolute_path == parent before_absolute_path)
      (revision_id, replaced) ← set_parent id after_file_name after_parent moved labelled
      time ← look (λ w. H.last_modified_timestamp w after_absolute_path)
      disk_timestamp ← lift context time
      pure (
          replaced
          ++ (StateModification.update id after_file_name revision_id after_parent disk_timestamp
              ∷ []))
