-- ===== src/BaseClient/Auth.antt =====
-- baseclient/client_state.go and client_receive.go: authentication.
use convex_go.Prelude.{
  true, false, not, ◌&&◌, Option, none, some, List, [], ◌∷◌, ◌++◌, Str, if◌then◌else◌,
}
use convex_go.Prelude.Eq.{list_beq}
use convex_go.Core.Error.{Result, ok, err, no_auth_callback}
use convex_go.Protocol.{
  next_u32, AuthTokenType, unset, token_none, token_user, token_admin, SyncUserIdentityAttributes,
  authenticate,
}
use convex_go.BaseClient.State.{AuthToken, AuthTokenFetcher, Client, Outcome}

-- The token identifier that the issuer and the subject stand for, where none is given.
unfoldable pub with_identifier : SyncUserIdentityAttributes → SyncUserIdentityAttributes
with_identifier i =
    if list_beq i.token_identifier [] && (not (list_beq i.issuer []) && not (list_beq i.subject []))
    then record i { token_identifier = i.issuer ++ (b'|' ∷ i.subject) }
    else i

-- UserAuthToken, AdminAuthToken, NoAuthToken
unfoldable pub user_auth_token : Str → AuthToken
user_auth_token t = record { token_type = token_user; value = t; acting_as = none }

unfoldable pub admin_auth_token : Str → List SyncUserIdentityAttributes → AuthToken
admin_auth_token t [] = record { token_type = token_admin; value = t; acting_as = none }
admin_auth_token t (i ∷ is) = record {
  token_type = token_admin;
  value = t;
  acting_as = some (with_identifier i);
}

unfoldable pub no_auth_token : AuthToken
no_auth_token = record { token_type = token_none; value = []; acting_as = none }

abbrev pub or_none : AuthTokenType → AuthTokenType
or_none unset = token_none
or_none t = t

abbrev pub acting :
    AuthTokenType → Option SyncUserIdentityAttributes → Option SyncUserIdentityAttributes
acting t none = none
acting token_admin (some i) = some (with_identifier i)
acting t (some i) = some i

-- queueAuth
unfoldable pub queue_auth : AuthToken → Client → Client
queue_auth t c = record c {
  identity_version = next_u32 c.identity_version;
  outgoing =
      c.outgoing
      ++ authenticate (record {
        base_version = c.identity_version;
        token_type = or_none t.token_type;
        value = t.value;
        acting_as = acting (or_none t.token_type) t.acting_as;
      })
        ∷ [];
}

-- SetAuth, SetAdminAuth, ClearAuth: none of them fails.
unfoldable pub set_auth : Str → Client → Client
set_auth token c =
    let t = user_auth_token token in queue_auth t (record c { auth_fetcher = some (λ _. ok t) })

unfoldable pub set_admin_auth : Str → List SyncUserIdentityAttributes → Client → Client
set_admin_auth token acting_as c =
    let t = admin_auth_token token acting_as in
    queue_auth t (record c { auth_fetcher = some (λ _. ok t) })

unfoldable pub clear_auth : Client → Client
clear_auth c = queue_auth no_auth_token (record c { auth_fetcher = none })

abbrev pub queue_fetched : Result AuthToken → AuthTokenFetcher → Client → Outcome (Unit {0})
queue_fetched (err e) f c = (c, err e)
queue_fetched (ok t) f c = (queue_auth t (record c { auth_fetcher = some f }), ok tt)

unfoldable pub set_auth_callback : Option AuthTokenFetcher → Client → Outcome (Unit {0})
set_auth_callback none c = (clear_auth c, ok tt)
set_auth_callback (some f) c = queue_fetched (f false) f c

abbrev pub queue_refreshed : Result AuthToken → Client → Outcome (Unit {0})
queue_refreshed (err e) c = (c, err e)
queue_refreshed (ok t) c = (queue_auth t c, ok tt)

-- RefreshAuthForReconnect: the fetcher is asked for a fresh token.
abbrev pub refresh_from : Option AuthTokenFetcher → Client → Outcome (Unit {0})
refresh_from none c = (c, err no_auth_callback)
refresh_from (some f) c = queue_refreshed (f true) c

unfoldable pub refresh_auth_for_reconnect : Client → Outcome (Unit {0})
refresh_auth_for_reconnect c = refresh_from c.auth_fetcher c
