-- ===== src/Local/Watcher/Renamed.antt =====
-- trsync/src/local/watcher.rs: what a renaming in the folder is reported as.
use trsync.Base.{
  Bool, true, false, inl, inr, some, Option-cases, [], ◌∷◌, ◌++◌, ok, ◌≡◌, refl, arith, ◌==◌,
  string_eq,
}
use trsync.Core.Types.{FilePath, content_type_eq, from_path, file_name}
use trsync.Event.{deleted, created}
use trsync.Sync.Local.{ignore_file}
use trsync.Local.Watcher.{
  rename, strip_prefix, relative, event_path, rename_messages, messages_of, digest_event,
}

strip_prefix-append : (prefix path : FilePath) → strip_prefix (prefix ++ path) prefix ≡ some path
unfolding strip_prefix
strip_prefix-append [] path = refl
strip_prefix-append (d ∷ prefix) path = ground (arith, strip_prefix-append prefix path)

pub relative-append : (prefix path : FilePath) → relative (prefix ++ path) prefix ≡ ok path
unfolding relative
relative-append prefix path = rw (strip_prefix-append prefix path) refl

no_folder : (path other : FilePath) → (from_path false path == from_path true other) ≡ false
unfolding from_path content_type_eq
no_folder path other = elim (Option-cases (file_name path)) [
  | inl p ↦ ground arith
  | inr (name, p) ↦ ground arith
]

module _ (is_dir : FilePath → Bool) where
  -- A renamed folder, which is under its new name only, is reported as the deletion of the old folder and the
  -- creation of a new one, without what is in it.
  pub digest_event-folder :
      (workspace source dest : FilePath)
      → is_dir (workspace ++ source) ≡ false
      → is_dir (workspace ++ dest) ≡ true
      → ignore_file source ≡ false
      → digest_event is_dir (rename (workspace ++ source) (workspace ++ dest)) workspace
        ≡ ok (deleted source ∷ created dest ∷ [])
  unfolding digest_event event_path messages_of rename_messages
  digest_event-folder workspace source dest gone there seen =
      rw
        (
          digest_event,
          relative-append workspace source,
          relative-append workspace dest,
          seen,
          gone,
          there,
          no_folder (workspace ++ source) (workspace ++ dest),
        )
        refl

  -- A file that gets its name by a renaming from one that is ignored, as a program does that saves in two
  -- steps, is not reported at all.
  pub digest_event-ignored_source :
      (workspace source : FilePath) (dest : FilePath)
      → ignore_file source ≡ true
      → digest_event is_dir (rename (workspace ++ source) dest) workspace ≡ ok []
  unfolding digest_event event_path
  digest_event-ignored_source workspace source dest hidden =
      rw (digest_event, relative-append workspace source, hidden) refl
