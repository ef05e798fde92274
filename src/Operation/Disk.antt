-- ===== src/Operation/Disk.antt =====
-- trsync/src/operation/executor/disk: what a remote event makes of the synchronized folder.
pub mod Kept
pub mod Branches
pub mod Announced
use trsync.Base.{
  Bool, true, false, not, Option, none, some, List, [], ◌∷◌, ◌++◌, map, Outcome, ok, err, ◌==◌,
  list_eq, string_eq, if◌then◌else◌, ◌≡◌, refl, ap, arith,
}
use trsync.Core.Types.{
  ContentId, FileName, FilePath, ContentType, folder, file, html_document, parent,
}
use trsync.Core.Content.{Anyhow, Content, from_remote}
use trsync.Core.Error.{
  StateError, unknown_content, ExecutorError, unexpected, unexpected2, missing_parent, state,
}
use trsync.Event.{DiskEvent, Event, wrap}
use trsync.State.{State, StateModification}
use trsync.State.Path.{to_path_buf}
use trsync.Operation.Host.{Host, IoError}
use trsync.Operation.Exec.{
  Exec, pure, raise, ◌>>=◌, ◌>>◌, lift, attempt, call, look, push, when, context, expect,
}

abbrev pub local_event : FilePath → DiskEvent → Event
local_event p e = Event.local (wrap p e)

-- What repeated calls of `Path::parent` give: the empty path is the last one.
unfoldable pub ancestors : FilePath → List FilePath
ancestors [] = []
ancestors (name ∷ path) = map (λ p. name ∷ p) (ancestors path) ++ ([] ∷ [])

module _ {H : Host} where
  -- The loop of `PresentOnDiskExecutor` over the parents of a folder's path. The test is made of
  -- the relative path.
  unfoldable pub announce_parents : List FilePath → Exec H (Unit {0})
  announce_parents [] = pure tt
  announce_parents (current ∷ rest) = do
    there ← look (λ w. H.exists_in_cwd w current)
    when (not there) (push (local_event current (DiskEvent.created current)))
    announce_parents rest

  unfoldable pub after_create_dir : FilePath → Outcome IoError (Unit {0}) → Exec H (Unit {0})
  after_create_dir absolute_path (ok _) = pure tt
  after_create_dir absolute_path (err e) = do
    there ← look (λ w. H.exists w absolute_path)
    when (not there) (raise unexpected2)

  -- `fs::create_dir_all`, whose error counts only where the folder is not there afterwards.
  unfoldable pub ensure_folder : FilePath → Exec H (Unit {0})
  unfolding after_create_dir
  ensure_folder absolute_path = do
    r ← attempt (H.create_dir_all absolute_path)
    after_create_dir absolute_path r

  -- The branch of `PresentOnDiskExecutor` for a file or a document: the download is made as for a
  -- file in either case.
  unfoldable pub ensure_file : ContentId → FilePath → FilePath → Exec H (Unit {0})
  ensure_file id content_path absolute_path = do
    there ← look (λ w. H.exists w absolute_path)
    call context (H.create_file absolute_path)
    when (not there) (push (local_event content_path (DiskEvent.created content_path)))
    call context (H.fill_file_with_content id file absolute_path)
    push (local_event content_path (DiskEvent.modified content_path))

  unfoldable pub ensure_content : ContentType → ContentId → FilePath → FilePath → Exec H (Unit {0})
  unfolding ancestors announce_parents ensure_folder ensure_file
  ensure_content folder id content_path absolute_path = do
    announce_parents (ancestors content_path)
    ensure_folder absolute_path
  ensure_content file id content_path absolute_path = ensure_file id content_path absolute_path
  ensure_content html_document id content_path absolute_path =
      ensure_file id content_path absolute_path

  -- `fs::remove_dir_all` or `fs::remove_file`; an error is only logged.
  unfoldable pub remove_content : ContentType → FilePath → Exec H (Unit {0})
  remove_content folder absolute_path = do attempt (H.remove_dir_all absolute_path); pure tt
  remove_content file absolute_path = do attempt (H.remove_file absolute_path); pure tt
  remove_content html_document absolute_path = do attempt (H.remove_file absolute_path); pure tt

module _ (H : Host) (T : State) (workspace_folder : FilePath) (s : T.Store) where
  -- `AbsentFromDiskExecutor::execute`
  unfoldable pub absent_from_disk : ContentId → Exec H (List StateModification)
  unfolding remove_content to_path_buf
  absent_from_disk id = do
    found ← lift context (T.get s id)
    content ← expect found
    parts ← lift context (T.path s id)
    let content_path = to_path_buf parts
    let absolute_path = workspace_folder ++ content_path
    there ← look (λ w. H.exists w absolute_path)
    when there (push (local_event content_path (DiskEvent.deleted content_path)))
    remove_content content.type_ absolute_path
    pure (StateModification.forgot id ∷ [])

  -- An unknown parent is an error of its own: the startup synchronization retries on it.
  abbrev pub parent_error : ContentId → ContentId → StateError → ExecutorError
  parent_error id parent_id (unknown_content _) = missing_parent id parent_id
  parent_error id parent_id e = state e

  -- The path of a remote content, below the path of its parent.
  unfoldable pub below_parent :
      (ContentId → StateError → ExecutorError) → Option ContentId → FileName → Exec H FilePath
  unfolding to_path_buf
  below_parent f none name = pure (name ∷ [])
  below_parent f (some parent_id) name = do
    parts ← lift (f parent_id) (T.path s parent_id)
    pure (to_path_buf parts ++ (name ∷ []))

  -- `PresentOnDiskExecutor::execute`
  unfoldable pub present_on_disk : ContentId → Exec H (List StateModification)
  unfolding ensure_content below_parent to_path_buf from_remote
  present_on_disk id = do
    remote ← call context (H.get_content id)
    content ← lift context (from_remote remote)
    content_path ← below_parent (parent_error id) content.parent_id content.file_name
    let absolute_path = workspace_folder ++ content_path
    there ← look (λ w. H.exists w absolute_path)
    when (not there) (push (local_event content_path (DiskEvent.created content_path)))
    ensure_content content.type_ id content_path absolute_path
    time ← look (λ w. H.last_modified_timestamp w absolute_path)
    disk_timestamp ← lift context time
    pure (StateModification.add content content_path disk_timestamp ∷ [])

  -- The move of `UpdatedOnDiskExecutor`, where the path has changed.
  unfoldable pub move_content : FilePath → FilePath → Exec H (Unit {0})
  move_content old new = when (not ((workspace_folder ++ old) == (workspace_folder ++ new))) (do
    call context (H.rename (workspace_folder ++ old) (workspace_folder ++ new))
    push (local_event old (DiskEvent.renamed old new)))

  -- `UpdatedOnDiskExecutor::execute`; the download is announced under the old path.
  unfoldable pub updated_on_disk : ContentId → Bool → Exec H (List StateModification)
  unfolding move_content below_parent to_path_buf from_remote
  updated_on_disk id download = do
    local_parts ← lift context (T.path s id)
    let local_content_path = to_path_buf local_parts
    remote ← call context (H.get_content id)
    content ← lift context (from_remote remote)
    remote_content_path ← below_parent (λ _ e. context e) content.parent_id content.file_name
    move_content local_content_path remote_content_path
    let new_absolute_path = workspace_folder ++ remote_content_path
    when download (do
      call context (H.fill_file_with_content id content.type_ new_absolute_path)
      push (local_event local_content_path (DiskEvent.modified local_content_path)))
    time ← look (λ w. H.last_modified_timestamp w new_absolute_path)
    disk_timestamp ← lift context time
    pure (
        StateModification.update id content.file_name content.revision_id content.parent_id
          disk_timestamp
        ∷ [])
