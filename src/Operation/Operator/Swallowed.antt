-- ===== src/Operation/Operator/Swallowed.antt =====
-- trsync/src/operation/operator.rs with trsync/src/local/reducer.rs: a file that arrives from the server, and the
-- modification of it that comes next.
use trsync.Base.{
  ℕ, true, false, some, List, [], ◌∷◌, ok, contains, ◌≡◌, ◌≢◌, refl, sym, ap, ◌∙◌, arith,
}
use trsync.Core.Types.{ContentId, FilePath, folder}
use trsync.Core.Content.{Content, RemoteContent, from_remote}
use trsync.Event.{DiskEvent, RemoteEvent, Event, event_eq, from_disk_event}
use trsync.State.{State, StateModification}
use trsync.Local.Reducer.{next_event, reduce, react}
use trsync.Operation.Host.{Host}
use trsync.Operation.Exec.{Context}
use trsync.Operation.Disk.{local_event, present_on_disk}
use trsync.Operation.Disk.Announced.{path_below, present_on_disk-announced}
use trsync.Operation.Operator.{
  Executor, execute, executors, run_event, conclude, proceed, operate, qualify, is_attachment,
  under_no_folder,
}
use trsync.Operation.Operator.Kept.{conclude-ignore_events}
use trsync.Operation.Operator.Ignored.{operate-ignored}
use trsync.Operation.Operator.Echo.{Works, Meanwhile, Meanwhile-Kept, run_event-one}

module _ (H : Host) (T : State) (workspace_folder : FilePath) where
  operate-arrival :
      (fuel : ℕ) (id : ContentId) (raw : RemoteContent) (w : H.World)
      (o : Works H T workspace_folder)
      → contains o.context.ignore_events (Event.remote (RemoteEvent.created id)) ≡ false
      → H.get_content id o.context.world ≡ (ok raw, w)
      → under_no_folder H T workspace_folder o.state raw.parent_id ≡ ok false
      → operate H T workspace_folder fuel (Event.remote (RemoteEvent.created id)) o
        ≡ conclude H T workspace_folder fuel o.state (
            run_event
              (execute H T workspace_folder o.state)
              (Executor.present_on_disk id ∷ [])
              (record o.context { world = w }))
  unfolding operate is_attachment proceed qualify executors
  operate-arrival fuel id raw w o fresh found own = rw (operate, fresh, found, own) refl

  arrival-announced :
      (fuel : ℕ) (id : ContentId) (raw raw' : RemoteContent) (content : Content) (path : FilePath)
      (w w' : H.World) (changes : List StateModification) (c' : Context H)
      (o o1 : Works H T workspace_folder)
      → contains o.context.ignore_events (Event.remote (RemoteEvent.created id)) ≡ false
      → H.get_content id o.context.world ≡ (ok raw, w)
      → under_no_folder H T workspace_folder o.state raw.parent_id ≡ ok false
      → H.get_content id w ≡ (ok raw', w')
      → from_remote raw' ≡ ok content
      → path_below H T workspace_folder o.state content.parent_id content.file_name ≡ ok path
      → content.type_ ≢ folder
      → present_on_disk H T workspace_folder o.state id (record o.context { world = w })
        ≡ (ok changes, c')
      → operate H T workspace_folder fuel (Event.remote (RemoteEvent.created id)) o
        ≡ some (ok tt, o1)
      → contains o1.context.ignore_events (local_event path (DiskEvent.modified path)) ≡ true
  unfolding execute
  arrival-announced fuel id raw raw' content path w w' changes c' o o1 fresh found own again parsed
        at no_folder done run =
      let c = record o.context { world = w } in
      let ran =
        run_event (execute H T workspace_folder o.state) (Executor.present_on_disk id ∷ []) c in
      let same : ran.1 ≡ c' =
        ap (λ x. x.1)
          (run_event-one (execute H T workspace_folder o.state) (Executor.present_on_disk id)
            changes c (ap (λ x. x.0) done))
        ∙ ap (λ x. x.1) done in
      let kept : o1.context.ignore_events ≡ ran.1.ignore_events =
        conclude-ignore_events H T workspace_folder fuel o.state ran (ok tt) o1
          (sym (operate-arrival fuel id raw w o fresh found own) ∙ run) in
      ap (λ events. contains events (local_event path (DiskEvent.modified path)))
        (kept ∙ ap (λ x. x.ignore_events) same)
      ∙ present_on_disk-announced H T workspace_folder o.state id raw' content path w' c c' changes
          again parsed at no_folder done

  -- After a file or document has arrived from the server, the next modification of it is dropped without any
  -- change, whatever other events have been worked off in between and however they ended. The reducer makes
  -- the creation alone of the creation and the modification that the arrival itself causes, where both wait.
  pub arrival-swallows :
      (fuel : ℕ) (id : ContentId) (raw raw' : RemoteContent) (content : Content) (path : FilePath)
      (w w' : H.World) (changes : List StateModification) (c' : Context H)
      (o o1 o2 : Works H T workspace_folder)
      → contains o.context.ignore_events (Event.remote (RemoteEvent.created id)) ≡ false
      → H.get_content id o.context.world ≡ (ok raw, w)
      → under_no_folder H T workspace_folder o.state raw.parent_id ≡ ok false
      → H.get_content id w ≡ (ok raw', w')
      → from_remote raw' ≡ ok content
      → path_below H T workspace_folder o.state content.parent_id content.file_name ≡ ok path
      → content.type_ ≢ folder
      → present_on_disk H T workspace_folder o.state id (record o.context { world = w })
        ≡ (ok changes, c')
      → operate H T workspace_folder fuel (Event.remote (RemoteEvent.created id)) o
        ≡ some (ok tt, o1)
      → Meanwhile H T workspace_folder fuel
          (Event.local (from_disk_event (DiskEvent.modified path)))
          o1
          o2
      → (next_event (DiskEvent.created path ∷ DiskEvent.modified path ∷ [])
          ≡ (some (from_disk_event (DiskEvent.created path)), []))
        × (o3 : Works H T workspace_folder) × (operate H T workspace_folder fuel
              (Event.local (from_disk_event (DiskEvent.modified path)))
              o2
            ≡ some (ok tt, o3))
        × (o3.state ≡ o2.state)
        × (o3.context.world ≡ o2.context.world)
  unfolding next_event reduce react from_disk_event
  arrival-swallows fuel id raw raw' content path w w' changes c' o o1 o2 fresh found own again
        parsed at no_folder done run meanwhile =
      let e = local_event path (DiskEvent.modified path) in
      let announced =
        arrival-announced fuel id raw raw' content path w w' changes c' o o1 fresh found own again
          parsed at no_folder done run in
      let (o3, dropped, state, world, _, _) =
        operate-ignored H T workspace_folder fuel e o2 (Event.remote (RemoteEvent.created id))
          (Meanwhile-Kept H T workspace_folder fuel e o1 o2 meanwhile announced) (λ h. cc) in
      (ground arith, o3, dropped, state, world)
