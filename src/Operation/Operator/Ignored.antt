-- ===== src/Operation/Operator/Ignored.antt =====
-- trsync/src/operation/operator.rs: the events that an executor has announced are dropped once.
use trsync.Base.{
  ℕ, true, false, some, ok, contains, without, contains-without_self, contains-without_other, ◌≡◌,
  ◌≢◌, refl,
}
use trsync.Event.{Event, event_eq}
use trsync.State.{State}
use trsync.Core.Types.{FilePath}
use trsync.Operation.Host.{Host}
use trsync.Operation.Operator.{Operator, operate}

module _ (H : Host) (T : State) (workspace_folder : FilePath) where
  -- An event among the events to ignore succeeds and changes neither the state nor the world. It is
  -- then no longer among them, and any other event is among them as before.
  pub operate-ignored :
      (fuel : ℕ) (event : Event) (o : Operator H T workspace_folder) (other : Event)
      → contains o.context.ignore_events event ≡ true
      → event ≢ other
      → (o' : Operator H T workspace_folder) × (operate H T workspace_folder fuel event o
          ≡ some (ok tt, o'))
        × (o'.state ≡ o.state)
        × (o'.context.world ≡ o.context.world)
        × (contains o'.context.ignore_events event ≡ false)
        × (contains o'.context.ignore_events other ≡ contains o.context.ignore_events other)
  unfolding operate
  operate-ignored fuel event o other p n =
      let kept = without event o.context.ignore_events in
      (
        record o { context = record o.context { ignore_events = kept } },
        rw p,
        refl,
        refl,
        contains-without_self event o.context.ignore_events,
        contains-without_other event other o.context.ignore_events n,
      )
