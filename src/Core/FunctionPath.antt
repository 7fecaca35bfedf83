-- ===== src/Core/FunctionPath.antt =====
-- internal/core/path.go: module paths, function paths and their canonical form, and
-- canonicalQueryPath of baseclient/canonical.go.
pub mod Safety
use convex_go.Prelude.{Bool, ◌||◌, Option, none, some, List, [], ◌∷◌, ◌++◌, Str, str, if◌then◌else◌}
use convex_go.Prelude.Eq.{list_beq}
use convex_go.Core.Error.{
  Result, ok, err, ◌>>=◌, ◌>>◌, empty_module_path, absolute_module_path, invalid_module_path,
  invalid_path_component, module_extension, too_few_parts,
}
use convex_go.Core.Text.{
  has_prefix, trim_suffix, contains, replace_byte, split, join, cut, cut_last, trim_space, ext,
  clean,
}
use convex_go.Core.Identifier.{
  parse_function_name, validate_path_component, is_ascii_alpha, is_ascii_digit,
}

pub validate_parts : List Str → Result (Unit {0})
unfolding validate_path_component is_ascii_alpha is_ascii_digit
validate_parts [] = ok tt
validate_parts (p ∷ ps) =
    let rest = validate_path_component p >> validate_parts ps in
    if list_beq p [] || list_beq p (str ".") || list_beq p (str "..")
    then err invalid_path_component
    else rest

-- A ModulePath is its cleaned text.
abbrev is_js_or_none : Str → Bool
is_js_or_none e = list_beq e [] || list_beq e (str ".js")

-- The checks of ParseModulePath on the cleaned path.
pub check_cleaned : Str → Result Str
unfolding has_prefix contains split validate_parts ext
check_cleaned cleaned =
    let rest =
      validate_parts (split b'/' cleaned)
      >> (if is_js_or_none (ext cleaned) then ok cleaned else err module_extension) in
    if list_beq cleaned (str ".")
      || has_prefix cleaned (str "../")
      || list_beq cleaned (str "..")
      || contains cleaned (str "/../")
    then err invalid_module_path
    else rest

-- A ModulePath is its cleaned text.
unfoldable pub parse_module_path : Str → Result Str
unfolding clean has_prefix replace_byte check_cleaned
parse_module_path s =
    if list_beq s []
    then err empty_module_path
    else if has_prefix s (str "/")
    then err absolute_module_path
    else check_cleaned (clean (replace_byte b'\\' b'/' s))

-- ModulePath.Canonicalize
pub canonicalize_module : Str → Str
unfolding ext
canonicalize_module raw = if list_beq (ext raw) [] then raw ++ str ".js" else raw

-- ModulePath.IsSystem, IsDeps, IsHTTP, IsCron
pub is_system : Str → Bool
unfolding has_prefix
is_system raw =
    has_prefix raw (str "_system/")
    || list_beq raw (str "_system")
    || list_beq raw (str "_system.js")

pub is_deps : Str → Bool
unfolding has_prefix
is_deps raw =
    has_prefix raw (str "_deps/")
    || list_beq raw (str "_deps")
    || has_prefix raw (str "actions/_deps/")

pub is_http : Str → Bool
unfolding canonicalize_module
is_http raw = list_beq (canonicalize_module raw) (str "http.js")

pub is_cron : Str → Bool
unfolding canonicalize_module
is_cron raw = list_beq (canonicalize_module raw) (str "crons.js")

pub record UdfPath : Type 0 where
  pub module_path : Str
  pub function : Option Str

pub record CanonicalizedUdfPath : Type 0 where
  pub module_path : Str
  pub function : Str

pub parse_udf_path : Str → Result UdfPath
unfolding cut_last parse_function_name parse_module_path
parse_udf_path s = elim (cut_last b':' s) [
  | none ↦ (do m ← parse_module_path s; ok (record { module_path = m; function = none }))
  | some (before, after) ↦ (do
    fn ← parse_function_name after
    m ← parse_module_path before
    ok (record { module_path = m; function = some fn }))
]

-- UDFPath.String
pub udf_path_string : UdfPath → Str
udf_path_string p = elim p.function [ none ↦ p.module_path | some f ↦ p.module_path ++ (b':' ∷ f) ]

-- UDFPath.Canonicalize
pub canonicalize : UdfPath → CanonicalizedUdfPath
unfolding canonicalize_module
canonicalize p = record {
  module_path = canonicalize_module p.module_path;
  function = elim p.function [ none ↦ str "default" | some f ↦ f ];
}

last_part : Str → List Str → Str
last_part p [] = p
last_part p (q ∷ ps) = last_part q ps

init_parts : Str → List Str → List Str
init_parts p [] = []
init_parts p (q ∷ ps) = p ∷ init_parts q ps

abbrev check_normalized : Str → Result Str
check_normalized normalized = parse_udf_path normalized >>= λ _. ok normalized

-- The first branch of ParseFunctionPath, on the parts between the dots.
pub api_path : List Str → Result Str
unfolding last_part init_parts join parse_udf_path
api_path (head ∷ p ∷ q ∷ parts) =
    check_normalized (join b'/' (init_parts p (q ∷ parts)) ++ (b':' ∷ last_part q parts))
api_path _ = err too_few_parts

abbrev script_extensions : List Str
script_extensions =
    str ".ts" ∷ str ".tsx" ∷ str ".jsx" ∷ str ".mts" ∷ str ".mjs" ∷ str ".cts" ∷ str ".cjs" ∷ []

trim_extensions : List Str → Str → Str
unfolding trim_suffix
trim_extensions [] s = s
trim_extensions (e ∷ es) s = trim_extensions es (trim_suffix s e)

-- The second branch: "file:export", with "default" for an empty export name.
pub file_path : Str → Result Str
unfolding cut trim_space trim_extensions parse_udf_path
file_path s =
    let (before, after) = cut b':' s in
    let export_name = trim_space after in
    check_normalized (
      trim_extensions script_extensions before
      ++ (b':' ∷ (if list_beq export_name [] then str "default" else export_name)))

pub parse_function_path : Str → Result Str
unfolding has_prefix split api_path file_path
parse_function_path s =
    if has_prefix s (str "api.") || has_prefix s (str "internal.")
    then api_path (split b'.' s)
    else file_path s

-- canonical.go: syncWireUDFPath
pub sync_wire_udf_path : CanonicalizedUdfPath → Str
unfolding trim_suffix
sync_wire_udf_path p = trim_suffix p.module_path (str ".js") ++ (b':' ∷ p.function)

-- canonical.go: canonicalQueryPath
unfoldable pub canonical_query_path : Str → Result Str
unfolding parse_function_path parse_udf_path canonicalize sync_wire_udf_path
canonical_query_path path = do
  normalized ← parse_function_path path
  parsed ← parse_udf_path normalized
  ok (sync_wire_udf_path (canonicalize parsed))
