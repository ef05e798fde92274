-- ===== src/Operation/Disk/Branches.antt =====
-- trsync/src/operation/executor/disk: what each executor answers, changes and announces.
use trsync.Base.{
  true, none, some, List, [], ◌∷◌, ◌++◌, ok, err, list_eq, string_eq, if◌then◌else◌, Bool-cases,
  inl, inr, ◌≡◌, refl, arith,
}
use mathlib.Core.List.{append-nil}
use trsync.Core.Types.{ContentId, FilePath, ContentType, folder, file, html_document, DiskTimestamp}
use trsync.Core.Content.{Content, RemoteContent, from_remote}
use trsync.Core.Error.{unknown_content, missing_parent}
use trsync.Event.{DiskEvent}
use trsync.State.{State, StateModification}
use trsync.State.Path.{to_path_buf}
use trsync.Operation.Host.{Host}
use trsync.Operation.Exec.{
  Context, pure, raise, ◌>>=◌, ◌>>◌, lift, attempt, call, look, push, when, expect,
}
use trsync.Operation.Disk.{
  local_event, remove_content, absent_from_disk, below_parent, present_on_disk, move_content,
  updated_on_disk,
}

remove_content-ok :
    {H : Host} (t : ContentType) (p : FilePath) (c : Context H)
    → ((remove_content t p c).0 ≡ ok tt)
      × ((remove_content t p c).1.ignore_events ≡ c.ignore_events)
unfolding remove_content pure ◌>>◌ attempt
remove_content-ok folder p c = (refl, refl)
remove_content-ok file p c = (refl, refl)
remove_content-ok html_document p c = (refl, refl)

module _ (H : Host) (T : State) (workspace_folder : FilePath) (s : T.Store) where
  -- The removal of a known content succeeds and makes the state forget it, whether or not the disk
  -- let it go. It announces the deletion exactly where the path was there.
  pub absent_from_disk-known :
      (id : ContentId) (content : Content) (parts : List Content) (c : Context H)
      → T.get s id ≡ ok (some content)
      → T.path s id ≡ ok parts
      → ((absent_from_disk H T workspace_folder s id c).0 ≡ ok (StateModification.forgot id ∷ []))
        × ((absent_from_disk H T workspace_folder s id c).1.ignore_events
            ≡ c.ignore_events
              ++ (if H.exists c.world (workspace_folder ++ to_path_buf parts)
                  then local_event (to_path_buf parts) (DiskEvent.deleted (to_path_buf parts)) ∷ []
                  else []))
  unfolding absent_from_disk pure raise ◌>>=◌ ◌>>◌ lift attempt call look push when expect
  absent_from_disk-known id content parts c p q =
      elim (Bool-cases (H.exists c.world (workspace_folder ++ to_path_buf parts))) [
        | inl there ↦ ground (
          arith,
          remove_content-ok {H = H} content.type_ (workspace_folder ++ to_path_buf parts)
              (record c {
                ignore_events =
                    c.ignore_events
                    ++ (local_event (to_path_buf parts) (DiskEvent.deleted (to_path_buf parts))
                        ∷ []);
              }),
        )
        | inr gone ↦ ground (
          arith,
          append-nil c.ignore_events,
          remove_content-ok {H = H} content.type_ (workspace_folder ++ to_path_buf parts) c,
        )
      ]

  -- A new content whose parent the state does not know is refused with the two identifiers, before
  -- anything of the disk is touched and with nothing announced.
  pub present_on_disk-missing_parent :
      (id parent_id : ContentId) (raw : RemoteContent) (content : Content) (w : H.World)
      (c : Context H)
      → H.get_content id c.world ≡ (ok raw, w)
      → from_remote raw ≡ ok content
      → content.parent_id ≡ some parent_id
      → T.path s parent_id ≡ err (unknown_content parent_id)
      → present_on_disk H T workspace_folder s id c
        ≡ (err (missing_parent id parent_id), record c { world = w })
  unfolding present_on_disk below_parent pure raise ◌>>=◌ ◌>>◌ lift attempt call look push when
      expect
  present_on_disk-missing_parent id parent_id raw content w c p q r t = ground arith

  -- An update of a content that goes to the root under another path moves it, downloads it and updates
  -- the state. It announces the move, and the download under the old path.
  pub updated_on_disk-moved :
      (id : ContentId) (parts : List Content) (raw : RemoteContent) (content : Content)
      (c : Context H) (w w' w'' : H.World) (time : DiskTimestamp)
      → T.path s id ≡ ok parts
      → H.get_content id c.world ≡ (ok raw, w)
      → from_remote raw ≡ ok content
      → content.parent_id ≡ none
      → H.rename
          (workspace_folder ++ to_path_buf parts)
          (workspace_folder ++ (content.file_name ∷ []))
          w
        ≡ (ok tt, w')
      → (workspace_folder ++ to_path_buf parts ≡ workspace_folder ++ (content.file_name ∷ []) → ⊥)
      → H.fill_file_with_content id content.type_ (workspace_folder ++ (content.file_name ∷ [])) w'
        ≡ (ok tt, w'')
      → H.last_modified_timestamp w'' (workspace_folder ++ (content.file_name ∷ [])) ≡ ok time
      → updated_on_disk H T workspace_folder s id true c ≡ (
        ok (
            StateModification.update id content.file_name content.revision_id content.parent_id time
            ∷ []),
        record {
          world = w'';
          ignore_events =
              (c.ignore_events
                ++ (local_event
                      (to_path_buf parts)
                      (DiskEvent.renamed (to_path_buf parts) (content.file_name ∷ []))
                    ∷ []))
              ++ (local_event (to_path_buf parts) (DiskEvent.modified (to_path_buf parts)) ∷ []);
        },
      )
  unfolding updated_on_disk below_parent move_content pure raise ◌>>=◌ ◌>>◌ lift attempt call look
      push when expect
  updated_on_disk-moved id parts raw content c w w' w'' time p g f n r d l t =
      elim (list_eq.dec (workspace_folder ++ to_path_buf parts)
        (workspace_folder ++ (content.file_name ∷ []))) [
          | yes e ↦ absurd (d e)
          | no _ ↦ ground arith
        ]
