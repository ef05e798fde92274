-- ===== src/Event.antt =====
-- trsync/src/event, with `DiskEvent` of trsync/src/local/watcher.rs and `DiskEventWrap` of
-- trsync/src/local/reducer.rs.
use trsync.Base.{Eq, list_eq, nat_eq, string_eq}
use trsync.Core.Types.{ContentId, FilePath}
use trsync.Core.Change.{Change}
use trsync.Core.Change.Local.{LocalChange}
use trsync.Core.Change.Remote.{RemoteChange}

pub data DiskEvent : Type 0 where
  deleted created modified : FilePath → DiskEvent
  renamed : FilePath → FilePath → DiskEvent

-- An event with the path under which the database knows the file.
pub record DiskEventWrap : Type 0 where
  pub stored_path : FilePath
  pub event : DiskEvent

-- `DiskEventWrap::new`
abbrev pub wrap : FilePath → DiskEvent → DiskEventWrap
wrap p e = record { stored_path = p; event = e }

-- `impl From<&DiskEvent> for DiskEventWrap`
unfoldable pub from_disk_event : DiskEvent → DiskEventWrap
from_disk_event (DiskEvent.deleted p) = wrap p (DiskEvent.deleted p)
from_disk_event (DiskEvent.created p) = wrap p (DiskEvent.created p)
from_disk_event (DiskEvent.modified p) = wrap p (DiskEvent.modified p)
from_disk_event (DiskEvent.renamed p q) = wrap p (DiskEvent.renamed p q)

pub data RemoteEvent : Type 0 where
  deleted created updated renamed : ContentId → RemoteEvent

-- `RemoteEvent::content_id`
unfoldable pub content_id : RemoteEvent → ContentId
content_id (RemoteEvent.deleted id) = id
content_id (RemoteEvent.created id) = id
content_id (RemoteEvent.updated id) = id
content_id (RemoteEvent.renamed id) = id

pub data Event : Type 0 where
  remote : RemoteEvent → Event
  local : DiskEventWrap → Event

-- `impl From<&Change> for Event`
unfoldable pub from_change : Change → Event
from_change (Change.local (LocalChange.new p)) = local (wrap p (DiskEvent.created p))
from_change (Change.local (LocalChange.disappear p)) = local (wrap p (DiskEvent.deleted p))
from_change (Change.local (LocalChange.updated p)) = local (wrap p (DiskEvent.modified p))
from_change (Change.remote (RemoteChange.new id p)) = remote (RemoteEvent.created id)
from_change (Change.remote (RemoteChange.disappear id p)) = remote (RemoteEvent.deleted id)
from_change (Change.remote (RemoteChange.updated id p)) = remote (RemoteEvent.updated id)

path_discrete : Discrete FilePath
unfolding list_eq string_eq
path_discrete = list_eq.dec

id_discrete : Discrete ContentId
unfolding nat_eq
id_discrete = nat_eq.dec

disk_event_discrete : Discrete DiskEvent
disk_event_discrete = hlevel path_discrete

wrap_discrete : Discrete DiskEventWrap
wrap_discrete = hlevel (path_discrete, disk_event_discrete)

remote_event_discrete : Discrete RemoteEvent
remote_event_discrete = hlevel id_discrete

event_discrete : Discrete Event
event_discrete = hlevel (wrap_discrete, remote_event_discrete)

-- `#[derive(PartialEq, Eq)]`
instance unfoldable pub event_eq : Eq Event
unfolding event_discrete wrap_discrete remote_event_discrete disk_event_discrete path_discrete
    id_discrete
event_eq = record { dec = event_discrete }
