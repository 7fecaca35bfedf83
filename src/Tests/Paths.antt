-- ===== src/Tests/Paths.antt =====
-- Runs of the path functions.
use convex_go.Prelude.{◌≡◌, refl, str}
use convex_go.Core.Error.{ok, err, invalid_module_path}
use convex_go.Core.Text.{clean, ext}
use convex_go.Core.FunctionPath.{canonical_query_path}

canonical_plain : canonical_query_path (str "messages:list") ≡ ok (str "messages:list")
unfolding canonical_query_path
canonical_plain = refl

canonical_api : canonical_query_path (str "api.a.b.send") ≡ ok (str "a/b:send")
unfolding canonical_query_path
canonical_api = refl

canonical_default : canonical_query_path (str "dir/mod.ts") ≡ ok (str "dir/mod:default")
unfolding canonical_query_path
canonical_default = refl

canonical_bad : canonical_query_path (str "../x:y") ≡ err invalid_module_path
unfolding canonical_query_path
canonical_bad = refl

clean_dots : clean (str "a/./b/../c//d") ≡ str "a/c/d"
unfolding clean
clean_dots = refl

clean_up : clean (str "../../a/..") ≡ str "../.."
unfolding clean
clean_up = refl

ext_js : ext (str "a.b/messages.js") ≡ str ".js"
unfolding ext
ext_js = refl
