-- ===== src/Operation/Host.antt =====
-- What the executors use and do not implement: the file system (`std::fs`, by absolute paths) and
-- the server behind the trait `TracimClient` of core/src/client.rs. A call may change the world also
-- where it fails.
use trsync.Base.{String, Bool, Option, Outcome}
use trsync.Core.Types.{ContentId, RevisionId, DiskTimestamp, FileName, FilePath, ContentType}
use trsync.Core.Content.{RemoteContent}
use trsync.Core.Error.{TracimClientError}

-- `std::io::Error`
pub data IoError : Type 0 where
  io_error : IoError

pub record Host : Type 1 where
  pub World : Type 0
  -- `Path::exists`, of an absolute path and of one that is relative to the working directory
  pub exists : World → FilePath → Bool
  pub exists_in_cwd : World → FilePath → Bool
  pub is_dir : World → FilePath → Bool
  pub remove_dir_all : FilePath → World → Outcome IoError (Unit {0}) × World
  pub remove_file : FilePath → World → Outcome IoError (Unit {0}) × World
  pub create_dir_all : FilePath → World → Outcome IoError (Unit {0}) × World
  pub create_file : FilePath → World → Outcome IoError (Unit {0}) × World
  pub rename : FilePath → FilePath → World → Outcome IoError (Unit {0}) × World
  pub read_to_string : World → FilePath → Outcome IoError String
  -- `last_modified_timestamp`, in milliseconds
  pub last_modified_timestamp : World → FilePath → Outcome IoError DiskTimestamp
  -- the sum of a file that can be read
  pub md5_file : World → FilePath → String
  -- a new temporary file, and its removal
  pub temp_file : World → Outcome IoError FilePath × World
  pub close_temp : FilePath → World → Outcome IoError (Unit {0}) × World
  pub create_content :
      FileName
      → ContentType
      → Option ContentId
      → FilePath
      → World
      → Outcome TracimClientError ContentId × World
  pub set_label :
      ContentId → ContentType → FileName → World → Outcome TracimClientError RevisionId × World
  pub set_parent :
      ContentId → Option ContentId → World → Outcome TracimClientError RevisionId × World
  pub trash_content : ContentId → World → Outcome TracimClientError (Unit {0}) × World
  pub restore_content : ContentId → World → Outcome TracimClientError (Unit {0}) × World
  pub get_content : ContentId → World → Outcome TracimClientError RemoteContent × World
  -- `none` for `ParentIdParameter::Root`
  pub find_one :
      FileName → Option ContentId → World → Outcome TracimClientError (Option ContentId) × World
  pub fill_file_with_content :
      ContentId → ContentType → FilePath → World → Outcome TracimClientError (Unit {0}) × World
  pub fill_content_with_file :
      ContentId → ContentType → FilePath → World → Outcome TracimClientError RevisionId × World
