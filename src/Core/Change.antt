-- ===== src/Core/Change.antt =====
-- core/src/change: what the startup synchronization finds changed on either side.
pub mod Local
pub mod Remote
use Local.{LocalChange}
use Remote.{RemoteChange}

pub data Change : Type 0 where
  local : LocalChange → Change
  remote : RemoteChange → Change
