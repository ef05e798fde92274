-- ===== src/Operation/Remote/Restore.antt =====
-- trsync/src/operation/executor/remote/modified.rs: what becomes of an upload that fails.
use trsync.Base.{true, some, List, [], ◌∷◌, ◌++◌, ok, err, ◌≡◌, arith}
use trsync.Core.Types.{ContentId, FilePath, ContentType, fillable, DiskTimestamp}
use trsync.Core.Content.{Content, RemoteContent, from_remote}
use trsync.Core.Error.{TracimClientError}
use trsync.State.{State, StateModification}
use trsync.State.Path.{to_path_buf}
use trsync.Operation.Host.{Host}
use trsync.Operation.Exec.{
  Context, pure, raise, ◌>>=◌, ◌>>◌, lift, attempt, call, look, push, when, expect,
}
use trsync.Operation.Remote.Modified.{
  push_on_ok, update_content, after_update, modified_on_remote, content_id, absolute_path_of,
  content_type_of, last_modified,
}

module _ (H : Host) where
  -- A deleted or archived content is never restored: whatever the server answers to the upload, the
  -- step after it does nothing.
  pub after_update-inert :
      (id : ContentId) (type_ : ContentType) (p : FilePath) (c : Context H)
      → (update_content H id type_ p >>= after_update H id type_ p) c
        ≡ (ok tt, (update_content H id type_ p c).1)
  unfolding ◌>>=◌ attempt push_on_ok update_content after_update pure push ◌>>◌
  after_update-inert id type_ p c = ground arith

module _ (H : Host) (T : State) (workspace_folder : FilePath) (s : T.Store) where
  -- Where the upload of a known file fails, with whatever error, and the other calls succeed, the
  -- executor succeeds: it tells the state that the content has been updated, and announces no event.
  pub modified_on_remote-failed_upload :
      (db_path : FilePath) (id : ContentId) (local remote : Content) (raw : RemoteContent)
      (parts : List Content) (c : Context H) (e : TracimClientError) (w w' : H.World)
      (time : DiskTimestamp)
      → T.content_id_for_path s db_path ≡ ok (some id)
      → T.path s id ≡ ok parts
      → T.get s id ≡ ok (some local)
      → fillable local.type_ ≡ true
      → H.fill_content_with_file id local.type_ (workspace_folder ++ to_path_buf parts) c.world
        ≡ (err e, w)
      → H.get_content id w ≡ (ok raw, w')
      → from_remote raw ≡ ok remote
      → H.last_modified_timestamp w' (workspace_folder ++ to_path_buf parts) ≡ ok time
      → modified_on_remote H T workspace_folder s db_path c ≡ (
        ok (
            StateModification.update remote.id remote.file_name remote.revision_id remote.parent_id
              time
            ∷ []),
        record c { world = w' },
      )
  unfolding modified_on_remote content_id absolute_path_of content_type_of last_modified
      update_content after_update push_on_ok pure raise ◌>>=◌ ◌>>◌ lift attempt call look push when
      expect
  modified_on_remote-failed_upload db_path id local remote raw parts c e w w' time p q r f u g k t =
      ground arith
