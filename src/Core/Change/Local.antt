-- ===== src/Core/Change/Local.antt =====
-- core/src/change/local.rs
use trsync.Core.Types.{FilePath}

pub data LocalChange : Type 0 where
  new disappear updated : FilePath → LocalChange

unfoldable pub path : LocalChange → FilePath
path (new p) = p
path (disappear p) = p
path (updated p) = p
