-- ===== src/Tests/Stores.antt =====
-- The states.
use trsync.Base.{
  ℕ, ◌≡◌, ◌≢◌, refl, false, Option, none, some, List, [], ◌∷◌, ok, nat_eq, list_eq, string_eq,
  option_eq, ◌==◌, if◌then◌else◌, arith,
}
use trsync.Base.HashMap.{NodupKeys, remove}
use trsync.Core.Types.{ContentId, FilePath, file, folder}
use trsync.Core.Content.{Content}
use trsync.State.{forgot_with_children, forgot_each, forgot_self}
use trsync.State.Forget.{IsLawful, Below, under, here, forgot_with_children_all}
use trsync.State.Forget.Total.{Ranked, forgot_with_children_total}
use trsync.State.Path.{IsChain, to_path_buf, path_loop}
use trsync.State.Memory.{
  MemoryState, new, parents_known, memory_state, get, path, path_within, content_id_for_path,
  search_path, direct_children_ids, forgot,
}
use trsync.State.Memory.Laws.{IsValid, memory_state-IsLawful, path-IsChain, new-NoOrphan}
use trsync.State.Disk
use trsync.State.Disk.{Row, Database, SqlError, new_path, update}
use trsync.State.Disk.Rows.{without_id}
use trsync.State.Disk.Lawful.{Deletes, IsValid as IsValidTable, disk_state-IsLawful}
use trsync.State.Disk.Stale.{replaced, UpdateReplaces, content_id_for_path-stale}
use trsync.Tests.Data.{content_of, tree, state_of_tree}

abbrev rank : ContentId → ℕ
rank id = if id == 2 then 0 else 1

abbrev emptied : MemoryState
emptied = record { contents = []; timestamps = [] }

nodup : NodupKeys tree
unfolding nat_eq
nodup = (refl, (refl, tt))

valid : IsValid state_of_tree
valid = (nodup, (refl, (refl, tt)))

forgotten : forgot_with_children memory_state 3 state_of_tree 1 ≡ some (ok tt, emptied)
unfolding forgot_with_children forgot_each forgot_self direct_children_ids forgot remove nat_eq
    option_eq
forgotten = refl

built : new tree [] ≡ ok state_of_tree
unfolding new parents_known nat_eq
built = refl

below : Below memory_state state_of_tree 1 2
unfolding get nat_eq
below = under {p = 1} (content_of 2 "a.txt" (some 1) file, refl, refl) here

forgot_with_children_all_example : get emptied 2 ≡ ok none
forgot_with_children_all_example =
    forgot_with_children_all memory_state IsValid memory_state-IsLawful 3 state_of_tree emptied 1
      valid ((new-NoOrphan tree [] nodup).0 built) forgotten 2 below

ranked : Ranked memory_state rank state_of_tree
unfolding get
ranked = λ j p (content, found, parent). ground arith

forgot_with_children_total_example : forgot_with_children memory_state 3 state_of_tree 1 ≢ none
forgot_with_children_total_example =
    forgot_with_children_total memory_state IsValid memory_state-IsLawful rank 3 state_of_tree 1
      valid ranked (ground arith)

path_of_a : content_id_for_path state_of_tree ("Folder" ∷ "a.txt" ∷ []) ≡ ok (some 2)
unfolding content_id_for_path search_path path path_within path_loop get to_path_buf list_eq
    string_eq nat_eq
path_of_a = refl

parts_of_a :
    path state_of_tree 2
    ≡ ok (content_of 1 "Folder" none folder ∷ content_of 2 "a.txt" (some 1) file ∷ [])
unfolding path path_within path_loop get nat_eq
parts_of_a = refl

path-IsChain_example :
    (content : Content) × (get state_of_tree 2 ≡ ok (some content))
    × IsChain
        (get state_of_tree)
        (content_of 1 "Folder" none folder ∷ content_of 2 "a.txt" (some 1) file ∷ [])
        content
path-IsChain_example = path-IsChain state_of_tree 2 _ parts_of_a

-- A table whose connection is its rows.
abbrev pub table : Database
table = record {
  Connection = List Row;
  select = λ c. ok c;
  insert = λ c row. ok (row ∷ c);
  delete = λ c id. ok (without_id id c);
  update = λ c row. ok (replaced row c);
}

replaces : UpdateReplaces table
unfolding UpdateReplaces
replaces = λ c c' row rows s u. ground arith

abbrev row_of : ContentId → FilePath → Option ContentId → Row
row_of id p parent_id = record {
  relative_path = p;
  content_id = id;
  revision_id = 1;
  parent_id = parent_id;
  last_modified_timestamp = 0;
}

abbrev pub rows : List Row
rows = row_of 1 ("Folder" ∷ []) none ∷ row_of 2 ("Folder" ∷ "a.txt" ∷ []) (some 1) ∷ []

content_id_for_path-stale_example :
    Disk.content_id_for_path table
      (λ p. false)
      (replaced (row_of 1 ("Renamed" ∷ []) none) rows)
      ("Folder" ∷ "a.txt" ∷ [])
    ≡ ok (some 2)
unfolding Disk.content_id_for_path update new_path list_eq string_eq nat_eq
content_id_for_path-stale_example =
    content_id_for_path-stale table (λ p. false) replaces rows
      (replaced (row_of 1 ("Renamed" ∷ []) none) rows) rows 1 2 "Renamed" 1 none 0
      ("Folder" ∷ "a.txt" ∷ []) refl refl (λ e. ground arith) refl (λ e. ground arith)

deletes : Deletes table
deletes = record { select-delete = λ c c' id d. (c, refl, ground arith) }

disk_state-IsLawful_example :
    IsLawful (Disk.disk_state table (λ p. false)) (IsValidTable table (λ p. false))
disk_state-IsLawful_example = disk_state-IsLawful table (λ p. false) deletes
