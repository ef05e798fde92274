-- ===== src/Runner/Context.antt =====
-- trsync/src/context.rs: what a synchronization is given. A path is a text here, as the
-- configuration has it.
use trsync.Core.Job.{JobIdentifier}
use trsync.Base.{ℕ, nat_eq, Bool, true, [], ◌∷◌, ◌++◌, ◌==◌, if◌then◌else◌}
use trsync.Base.Lines.{Text, codes}
use trsync.Ignore.Decimal.{print}

ends_with_slash : Text → Bool
ends_with_slash [] = true
ends_with_slash (c ∷ []) = c == b'/'
ends_with_slash (c ∷ d ∷ s) = ends_with_slash (d ∷ s)

-- `Path::join`: a second path from the root replaces the first.
unfoldable pub path_join : Text → Text → Text
unfolding ends_with_slash
path_join path [] = if ends_with_slash path then path else path ++ codes "/"
path_join path (c ∷ s) =
    if c == b'/'
    then c ∷ s
    else if ends_with_slash path
    then path ++ (c ∷ s)
    else path ++ (b'/' ∷ c ∷ s)

-- `DB_NAME` of trsync/src/database.rs
abbrev pub db_name : Text
db_name = codes ".trsync.db"

pub record Context : Type 0 where
  pub instance_name : Text
  pub base_address : Text
  pub username : Text
  pub password : Text
  pub folder_path : Text
  pub database_path : Text
  pub workspace_id : ℕ
  pub workspace_name : Text
  pub exit_after_sync : Bool

-- `Context::new`, which never fails
unfoldable pub new : Bool → Text → Text → Text → Text → ℕ → Text → Bool → Context
unfolding path_join
new ssl address username password folder_path workspace_id workspace_name exit_after_sync = record {
  instance_name = address;
  base_address =
      (if ssl then codes "https" else codes "http") ++ codes "://" ++ address ++ codes "/api/";
  username = username;
  password = password;
  folder_path = folder_path;
  database_path = path_join folder_path db_name;
  workspace_id = workspace_id;
  workspace_name = workspace_name;
  exit_after_sync = exit_after_sync;
}

unfoldable pub workspace_url : Context → Text → Text
unfolding print
workspace_url context suffix =
    context.base_address ++ codes "workspaces/" ++ print context.workspace_id ++ codes "/" ++ suffix

unfoldable pub job_identifier : Context → JobIdentifier
job_identifier context = record {
  instance_name = context.instance_name;
  workspace_id = context.workspace_id;
  workspace_name = context.workspace_name;
}
