-- ===== src/Core/FunctionPath/Safety.antt =====
-- internal/core/path.go: the module paths that ParseModulePath accepts.
use convex_go.Prelude.{◌≡◌, true, false, ◌||◌, [], Str, str, All}
use convex_go.Prelude.Eq.{list_beq}
use convex_go.Core.Error.{ok}
use convex_go.Core.Text.{split, ext}
use convex_go.Core.Identifier.{validate_path_component}

-- A component that names a file or a folder, not the present or the parent one.
pub record IsSafePart (p : Str) : Type 0 where
  pub named : list_beq p [] ≡ false
  pub not_here : list_beq p (str ".") ≡ false
  pub not_up : list_beq p (str "..") ≡ false
  pub valid : validate_path_component p ≡ ok tt

-- A path below the folder of the functions: every component is safe, and the last dot of its last
-- component, if there is one, starts ".js".
pub record IsSafePath (path : Str) : Type 0 where
  pub parts : All IsSafePart (split b'/' path)
  pub script : (list_beq (ext path) [] || list_beq (ext path) (str ".js")) ≡ true
