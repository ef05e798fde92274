-- ===== src/Operation/Remote/Kept.antt =====
-- trsync/src/operation/executor/remote: an event that is to be ignored stays so.
use trsync.Base.{Bool, true, false, Option, none, some, Outcome, ok, err}
use trsync.Core.Types.{
  ContentId, RevisionId, FileName, FilePath, ContentType, folder, file, html_document,
}
use trsync.Core.Content.{RemoteContent}
use trsync.Core.Error.{
  TracimClientError, content_not_found, content_already_exist, content_deleted_or_archived,
}
use trsync.Event.{Event}
use trsync.State.{State}
use trsync.Operation.Host.{Host}
use trsync.Operation.Exec.Keeps.{Keeps, Kept, keeps_rules}
use trsync.Operation.Remote.Absent.{trash, absent_on, absent_from_remote}
use trsync.Operation.Remote.Created.{created_or_found, differs, do_update, fill, created_on_remote}
use trsync.Operation.Remote.Modified.{
  push_on_ok, update_content, restore_content, after_update, content_id, absolute_path_of,
  content_type_of, last_modified, modified_on_remote,
}
use trsync.Operation.Remote.Named.{
  set_label, replace, after_set_parent, set_parent, before_content, named_on_remote,
}

module _ (H : Host) (T : State) (s : T.Store) (e : Event) where
  trash-Keeps : (id : ContentId) (r : RemoteContent) → Keeps (Kept e) (trash H T s id r)
  unfolding trash
  trash-Keeps id r = search keeps_rules depth 20

module _ (H : Host) (T : State) (s : T.Store) (e : Event) where
  absent_on-Keeps :
      (id : ContentId) (r : Outcome TracimClientError RemoteContent)
      → Keeps (Kept e) (absent_on H T s id r)
  unfolding absent_on
  absent_on-Keeps id (ok r) = trash-Keeps H T s e id r
  absent_on-Keeps id (err content_not_found) = search keeps_rules
  absent_on-Keeps id (err _) = search keeps_rules

module _ (H : Host) (T : State) (s : T.Store) (e : Event) where
  pub absent_from_remote-Keeps : (p : FilePath) → Keeps (Kept e) (absent_from_remote H T s p)
  unfolding absent_from_remote
  absent_from_remote-Keeps p = search (absent_on-Keeps, keeps_rules) depth 20

module _ (H : Host) (e : Event) where
  created_or_found-Keeps :
      (name : FileName) (parent_id : Option ContentId) (r : Outcome TracimClientError ContentId)
      → Keeps (Kept e) (created_or_found H name parent_id r)
  unfolding created_or_found
  created_or_found-Keeps name parent_id (ok id) = search keeps_rules
  created_or_found-Keeps name parent_id (err content_already_exist) = search keeps_rules depth 20
  created_or_found-Keeps name parent_id (err _) = search keeps_rules

  differs-Keeps :
      (t : ContentType) (id : ContentId) (p : FilePath) → Keeps (Kept e) (differs H t id p)
  unfolding differs
  differs-Keeps file id p = search keeps_rules depth 20
  differs-Keeps html_document id p = search keeps_rules depth 20
  differs-Keeps folder id p = search keeps_rules depth 20

  do_update-Keeps :
      (b : Bool) (t : ContentType) (id : ContentId) (p : FilePath)
      → Keeps (Kept e) (do_update H b t id p)
  unfolding do_update
  do_update-Keeps true t id p = differs-Keeps t id p
  do_update-Keeps false t id p = search keeps_rules

  fill-Keeps : (t : ContentType) (id : ContentId) (p : FilePath) → Keeps (Kept e) (fill H t id p)
  unfolding fill
  fill-Keeps t id p = search keeps_rules depth 20

module _ (H : Host) (T : State) (workspace_folder : FilePath) (s : T.Store) (e : Event) where
  pub created_on_remote-Keeps :
      (p : FilePath) → Keeps (Kept e) (created_on_remote H T workspace_folder s p)
  unfolding created_on_remote
  created_on_remote-Keeps p =
      search (created_or_found-Keeps, do_update-Keeps, fill-Keeps, keeps_rules) depth 30

module _ (H : Host) (e : Event) where
  push_on_ok-Keeps :
      (f : Event) (r : Outcome TracimClientError (Unit {0})) → Keeps (Kept e) (push_on_ok H f r)
  unfolding push_on_ok
  push_on_ok-Keeps f (ok _) = search keeps_rules
  push_on_ok-Keeps f (err _) = search keeps_rules

module _ (H : Host) (e : Event) where
  update_content-Keeps :
      (id : ContentId) (t : ContentType) (p : FilePath) → Keeps (Kept e) (update_content H id t p)
  unfolding update_content
  update_content-Keeps id t p = search (push_on_ok-Keeps, keeps_rules)

  restore_content-Keeps : (id : ContentId) → Keeps (Kept e) (restore_content H id)
  unfolding restore_content
  restore_content-Keeps id = search (push_on_ok-Keeps, keeps_rules)

module _ (H : Host) (e : Event) where
  after_update-Keeps :
      (id : ContentId) (t : ContentType) (p : FilePath) (r : Outcome TracimClientError (Unit {0}))
      → Keeps (Kept e) (after_update H id t p r)
  unfolding after_update
  after_update-Keeps id t p (err content_deleted_or_archived) =
      search (restore_content-Keeps, update_content-Keeps, keeps_rules) depth 20
  after_update-Keeps id t p (err _) = search keeps_rules
  after_update-Keeps id t p (ok _) = search keeps_rules

module _ (H : Host) (T : State) (workspace_folder : FilePath) (s : T.Store) (e : Event) where
  content_id-Keeps : (p : FilePath) → Keeps {H = H} (Kept e) (content_id H T workspace_folder s p)
  unfolding content_id
  content_id-Keeps p = search keeps_rules

module _ (H : Host) (T : State) (workspace_folder : FilePath) (s : T.Store) (e : Event) where
  absolute_path_of-Keeps :
      (p : FilePath) → Keeps {H = H} (Kept e) (absolute_path_of H T workspace_folder s p)
  unfolding absolute_path_of
  absolute_path_of-Keeps p = search (content_id-Keeps, keeps_rules) depth 20

  content_type_of-Keeps :
      (p : FilePath) → Keeps {H = H} (Kept e) (content_type_of H T workspace_folder s p)
  unfolding content_type_of
  content_type_of-Keeps p = search (content_id-Keeps, keeps_rules) depth 20

  before_content-Keeps :
      (p : FilePath) → Keeps {H = H} (Kept e) (before_content H T workspace_folder s p)
  unfolding before_content
  before_content-Keeps p = search (content_id-Keeps, keeps_rules) depth 20

module _ (H : Host) (T : State) (workspace_folder : FilePath) (s : T.Store) (e : Event) where
  last_modified-Keeps :
      (p : FilePath) → Keeps {H = H} (Kept e) (last_modified H T workspace_folder s p)
  unfolding last_modified
  last_modified-Keeps p = search (absolute_path_of-Keeps, keeps_rules) depth 20

module _ (H : Host) (T : State) (workspace_folder : FilePath) (s : T.Store) (e : Event) where
  pub modified_on_remote-Keeps :
      (p : FilePath) → Keeps (Kept e) (modified_on_remote H T workspace_folder s p)
  unfolding modified_on_remote
  modified_on_remote-Keeps p =
      search
        (
          absolute_path_of-Keeps, content_type_of-Keeps, content_id-Keeps, update_content-Keeps,
          after_update-Keeps, last_modified-Keeps, keeps_rules,
        )
        depth 30

module _ (H : Host) (e : Event) where
  set_label-Keeps :
      (id : ContentId) (t : ContentType) (n : FileName) (b : Bool) (r : RevisionId)
      → Keeps (Kept e) (set_label H id t n b r)
  unfolding set_label
  set_label-Keeps id t n true r = search keeps_rules depth 20
  set_label-Keeps id t n false r = search keeps_rules

  replace-Keeps :
      (id : ContentId) (n : FileName) (p o : Option ContentId) → Keeps (Kept e) (replace H id n p o)
  unfolding replace
  replace-Keeps id n p none = search keeps_rules
  replace-Keeps id n p (some r) = search keeps_rules depth 20

module _ (H : Host) (e : Event) where
  after_set_parent-Keeps :
      (id : ContentId) (n : FileName) (p : Option ContentId)
      (r : Outcome TracimClientError RevisionId)
      → Keeps (Kept e) (after_set_parent H id n p r)
  unfolding after_set_parent
  after_set_parent-Keeps id n p (ok r) = search keeps_rules
  after_set_parent-Keeps id n p (err content_already_exist) = search (replace-Keeps, keeps_rules)
  after_set_parent-Keeps id n p (err _) = search keeps_rules

module _ (H : Host) (e : Event) where
  set_parent-Keeps :
      (id : ContentId) (n : FileName) (p : Option ContentId) (b : Bool) (r : RevisionId)
      → Keeps (Kept e) (set_parent H id n p b r)
  unfolding set_parent
  set_parent-Keeps id n p false r = search keeps_rules
  set_parent-Keeps id n p true r = search (after_set_parent-Keeps, keeps_rules) depth 20

module _ (H : Host) (T : State) (workspace_folder : FilePath) (s : T.Store) (e : Event) where
  pub named_on_remote-Keeps :
      (p q : FilePath) → Keeps (Kept e) (named_on_remote H T workspace_folder s p q)
  unfolding named_on_remote
  named_on_remote-Keeps p q =
      search
        (
          absolute_path_of-Keeps, before_content-Keeps, content_id-Keeps, set_label-Keeps,
          set_parent-Keeps, keeps_rules,
        )
        depth 40
