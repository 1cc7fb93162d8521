-- ===== src/Client/Requests.antt =====
-- src/client/src/request.c.
use progetto_sistemi_operati.Base.{ℕ, List, Option, none, some}
use progetto_sistemi_operati.Base.Int.{ℤ}

-- src/client/include/request.h. `dir` is null at first; `kind` is the field `type`.
pub record ClientRequest : Type 0 where
  pub content : List ℕ
  pub kind : ℕ
  pub extra : ℤ
  pub dir : Option (List ℕ)
  pub index : ℕ

-- `new_request` without a directory
unfoldable pub new_request_without_dir : ℕ → List ℕ → ℤ → ℕ → ClientRequest
new_request_without_dir kind content extra index = record {
  content = content;
  kind = kind;
  extra = extra;
  dir = none;
  index = index;
}

unfoldable pub set_request_directory : List ℕ → ClientRequest → ClientRequest
set_request_directory new_dir self = record self { dir = some new_dir }
