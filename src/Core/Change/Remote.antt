-- ===== src/Core/Change/Remote.antt =====
-- core/src/change/remote.rs
use trsync.Core.Types.{ContentId, FilePath}

pub data RemoteChange : Type 0 where
  new disappear updated : ContentId → FilePath → RemoteChange

unfoldable pub path : RemoteChange → FilePath
path (new id p) = p
path (disappear id p) = p
path (updated id p) = p
