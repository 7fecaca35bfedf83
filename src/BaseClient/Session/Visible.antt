-- ===== src/BaseClient/Session/Visible.antt =====
-- baseclient/client_state.go: the results that each call of a session may show.
use convex_go.Prelude.GoMap.{GoMap}
use convex_go.Prelude.Eq.{nat_eq, str_eq}
use convex_go.Core.Wire.{Wire}
use convex_go.Core.FunctionResult.{FunctionResult}
use convex_go.BaseClient.State.{subscriber_eq}
use convex_go.BaseClient.Session.{Session}
