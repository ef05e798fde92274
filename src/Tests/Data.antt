-- ===== src/Tests/Data.antt =====
-- A folder, its state and a server for the tests.
use trsync.Base.{
  ℕ, suc, true, false, Option, none, some, [], ◌∷◌, ok, err, ◌==◌, nat_eq, list_eq, string_eq,
  if◌then◌else◌,
}
use trsync.Base.HashMap.{HashMap}
use trsync.Core.Types.{ContentId, FilePath, FileName, ContentType, file, folder}
use trsync.Core.Content.{Content, RemoteContent}
use trsync.Core.Error.{content_already_exist, timeout_error}
use trsync.State.Memory.{MemoryState}
use trsync.Operation.Host.{Host}
use trsync.Operation.Exec.{Context}

abbrev pub path_a : FilePath
path_a = "a.txt" ∷ []

abbrev pub path_b : FilePath
path_b = "b.txt" ∷ []

abbrev pub workspace : FilePath
workspace = "workspace" ∷ []

abbrev pub content_of : ContentId → FileName → Option ContentId → ContentType → Content
content_of id name parent_id type_ = record {
  id = id;
  revision_id = 1;
  file_name = name;
  parent_id = parent_id;
  type_ = type_;
}

-- A folder (1) with a file (2).
abbrev pub tree : HashMap ContentId Content
tree = (1, content_of 1 "Folder" none folder) ∷ (2, content_of 2 "a.txt" (some 1) file) ∷ []

abbrev pub state_of_tree : MemoryState
state_of_tree = record { contents = tree; timestamps = [] }

abbrev pub raw : ContentId → Option ContentId → RemoteContent
raw id parent_id = record {
  content_id = id;
  current_revision_id = 2;
  parent_id = parent_id;
  content_type = "file";
  raw_content = none;
  filename = "b.txt";
  is_deleted = false;
  is_archived = false;
  modified = "2023-01-01";
  sub_content_types = [];
}

-- The world counts the calls that change it. The first change of a parent finds the name taken, and no upload succeeds.
abbrev pub host : Host
host = record {
  World = ℕ;
  exists = λ w p. true;
  exists_in_cwd = λ w p. false;
  is_dir = λ w p. p == ("workspace" ∷ "New" ∷ []);
  remove_dir_all = λ p w. (ok tt, suc w);
  remove_file = λ p w. (ok tt, suc w);
  create_dir_all = λ p w. (ok tt, suc w);
  create_file = λ p w. (ok tt, suc w);
  rename = λ p q w. (ok tt, suc w);
  read_to_string = λ w p. ok "";
  last_modified_timestamp = λ w p. ok 7;
  md5_file = λ w p. "sum";
  temp_file = λ w. (ok ("tmp" ∷ []), suc w);
  close_temp = λ p w. (ok tt, suc w);
  create_content = λ name type_ parent_id p w. (ok 9, suc w);
  set_label = λ id type_ name w. (ok 5, suc w);
  set_parent = λ id parent_id w. (if w == 0 then err content_already_exist else ok 6, suc w);
  trash_content = λ id w. (ok tt, suc w);
  restore_content = λ id w. (ok tt, suc w);
  get_content = λ id w. (ok (raw id (if id == 4 then some 8 else none)), w);
  find_one = λ name parent_id w. (ok (some 3), w);
  fill_file_with_content = λ id type_ p w. (ok tt, suc w);
  fill_content_with_file = λ id type_ p w. (err timeout_error, suc w);
}

abbrev pub start : Context host
start = record { world = 0; ignore_events = [] }
