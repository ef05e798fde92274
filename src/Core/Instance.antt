-- ===== src/Core/Instance.antt =====
-- core/src/instance.rs: the spaces of an instance and the addresses of its interface.
use trsync.Base.{ℕ, String, Bool, List, ◌∷◌, if◌then◌else◌}
use trsync.Base.Lines.{Text}
use trsync.Core.Client.{Piece, word, characters}

pub record Workspace : Type 0 where
  pub label : Text
  pub workspace_id : ℕ

scheme : Bool → String
scheme unsecure = if unsecure then "http" else "https"

-- `Instance::url`, and `GuiInstance::api_url` of configure/src/panel/instance.rs
unfoldable pub url : Bool → Text → List Piece → List Piece
unfolding scheme
url unsecure address suffix =
    word (scheme unsecure) ∷ word "://" ∷ characters address ∷ word "/api" ∷ suffix
