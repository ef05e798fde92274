-- ===== src/Operation/Disk/Kept.antt =====
-- trsync/src/operation/executor/disk: an event that is to be ignored stays so until it comes.
use trsync.Base.{List, [], ◌∷◌, Bool, Option, none, some, Outcome, ok, err}
use trsync.Core.Types.{ContentId, FileName, FilePath, ContentType, folder, file, html_document}
use trsync.Core.Error.{StateError, ExecutorError}
use trsync.Event.{Event, event_eq}
use trsync.State.{State}
use trsync.Operation.Host.{Host, IoError}
use trsync.Operation.Exec.Keeps.{Keeps, Kept, keeps_rules, Keeps-bind, Keeps-then}
use trsync.Operation.Disk.{
  absent_from_disk, remove_content, announce_parents, ensure_folder, ensure_file, ensure_content,
  present_on_disk, move_content, updated_on_disk, after_create_dir, below_parent,
}

module _ {H : Host} (e : Event) where
  remove_content-Keeps :
      (t : ContentType) (p : FilePath) → Keeps {H = H} (Kept e) (remove_content t p)
  unfolding remove_content
  remove_content-Keeps folder p = search keeps_rules
  remove_content-Keeps file p = search keeps_rules
  remove_content-Keeps html_document p = search keeps_rules

  announce_parents-Keeps : (paths : List FilePath) → Keeps {H = H} (Kept e) (announce_parents paths)
  unfolding announce_parents
  announce_parents-Keeps [] = search keeps_rules
  announce_parents-Keeps (p ∷ paths) =
      Keeps-bind _ _ (search keeps_rules)
        (λ there. Keeps-then _ _ (search keeps_rules) (announce_parents-Keeps paths))

  after_create_dir-Keeps :
      (p : FilePath) (r : Outcome IoError (Unit {0}))
      → Keeps {H = H} (Kept e) (after_create_dir p r)
  unfolding after_create_dir
  after_create_dir-Keeps p (ok _) = search keeps_rules
  after_create_dir-Keeps p (err _) = search keeps_rules

  ensure_folder-Keeps : (p : FilePath) → Keeps {H = H} (Kept e) (ensure_folder p)
  unfolding ensure_folder
  ensure_folder-Keeps p = Keeps-bind _ _ (search keeps_rules) (λ r. after_create_dir-Keeps p r)

  ensure_file-Keeps :
      (id : ContentId) (p q : FilePath) → Keeps {H = H} (Kept e) (ensure_file id p q)
  unfolding ensure_file
  ensure_file-Keeps id p q = search keeps_rules depth 20

module _ {H : Host} (e : Event) where
  ensure_content-Keeps :
      (t : ContentType) (id : ContentId) (p q : FilePath)
      → Keeps {H = H} (Kept e) (ensure_content t id p q)
  unfolding ensure_content
  ensure_content-Keeps folder id p q =
      search (announce_parents-Keeps, ensure_folder-Keeps, keeps_rules) depth 20
  ensure_content-Keeps file id p q = ensure_file-Keeps e id p q
  ensure_content-Keeps html_document id p q = ensure_file-Keeps e id p q

module _ (H : Host) (T : State) (workspace_folder : FilePath) (s : T.Store) (e : Event) where
  pub absent_from_disk-Keeps :
      (id : ContentId) → Keeps (Kept e) (absent_from_disk H T workspace_folder s id)
  unfolding absent_from_disk
  absent_from_disk-Keeps id = search (remove_content-Keeps, keeps_rules) depth 20

  below_parent-Keeps :
      (f : ContentId → StateError → ExecutorError) (o : Option ContentId) (name : FileName)
      → Keeps (Kept e) (below_parent H T workspace_folder s f o name)
  unfolding below_parent
  below_parent-Keeps f none name = search keeps_rules
  below_parent-Keeps f (some id) name = search keeps_rules

  pub present_on_disk-Keeps :
      (id : ContentId) → Keeps (Kept e) (present_on_disk H T workspace_folder s id)
  unfolding present_on_disk
  present_on_disk-Keeps id = search (ensure_content-Keeps, below_parent-Keeps, keeps_rules) depth 30

  move_content-Keeps : (p q : FilePath) → Keeps (Kept e) (move_content H T workspace_folder s p q)
  unfolding move_content
  move_content-Keeps p q = search keeps_rules depth 20

  pub updated_on_disk-Keeps :
      (id : ContentId) (b : Bool) → Keeps (Kept e) (updated_on_disk H T workspace_folder s id b)
  unfolding updated_on_disk
  updated_on_disk-Keeps id b = search (below_parent-Keeps, move_content-Keeps, keeps_rules) depth 30
