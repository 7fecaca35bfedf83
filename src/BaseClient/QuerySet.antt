-- ===== src/BaseClient/QuerySet.antt =====
-- What the client's queue of messages promises the server: the specification of the query set and
-- of the versions, and the well-formedness of the client's own tables. The server is the receiver
-- that the sync protocol describes: it refuses a message whose base version is not its own.
pub mod Count
pub mod Tables
pub mod Active
pub mod Follow
pub mod Leave
pub mod Unseen
pub mod Replay
use convex_go.Prelude.{
  ℕ, ◌+◌, ◌≤◌, ◌<◌, ◌≡◌, Option, none, some, List, [], ◌∷◌, ◌++◌, Str, if◌then◌else◌, ◌==◌, true,
  is_some,
}
use convex_go.Prelude.Eq.{nat_eq, str_eq}
use convex_go.Prelude.GoMap.{GoMap, get, put, delete, empty}
use convex_go.Prelude.GoMap.Iterate.{IsMap}
use convex_go.Protocol.{
  next_u32, QuerySetAdd, QuerySetModification, add, remove, ClientMessage, modify_query_set,
  mutation_message, action_message, authenticate,
}
use convex_go.BaseClient.State.{SubscriberId, subscriber_eq, LocalBaseQuery, Client}
use convex_go.BaseClient.Queries.{add_record}

pub record Server : Type 0 where
  pub query_set : ℕ
  pub identity : ℕ
  pub queries : GoMap ℕ QuerySetAdd

-- The server of a new connection.
abbrev pub fresh_server : Server
fresh_server = record { query_set = 0; identity = 0; queries = empty }

abbrev pub apply_mod : QuerySetModification → GoMap ℕ QuerySetAdd → GoMap ℕ QuerySetAdd
apply_mod (add a) m = put m a.query_id a
apply_mod (remove id) m = delete m id

unfoldable pub apply_mods : List QuerySetModification → GoMap ℕ QuerySetAdd → GoMap ℕ QuerySetAdd
apply_mods [] m = m
apply_mods (x ∷ xs) m = apply_mods xs (apply_mod x m)

unfoldable pub accept : ClientMessage → Server → Option Server
unfolding apply_mods
accept (modify_query_set m) s =
    if m.base_version == s.query_set
    then some
        (record s { query_set = m.new_version; queries = apply_mods m.modifications s.queries })
    else none
accept (authenticate a) s =
    if a.base_version == s.identity
    then some (record s { identity = next_u32 s.identity })
    else none
accept (mutation_message m) s = some s
accept (action_message m) s = some s

abbrev pub and_then : Option Server → (Server → Option Server) → Option Server
and_then none f = none
and_then (some s) f = f s

unfoldable pub accept_all : List ClientMessage → Server → Option Server
accept_all [] s = some s
accept_all (m ∷ ms) s = and_then (accept m s) (accept_all ms)

-- The query that the tables have under an id, as the server should know it.
abbrev pub query_at : Option Str → GoMap Str LocalBaseQuery → Option LocalBaseQuery
query_at none queries = none
query_at (some token) queries = get queries token

abbrev pub wanted : Option LocalBaseQuery → Option QuerySetAdd
wanted none = none
wanted (some q) = some (add_record q)

abbrev pub active_add : ℕ → GoMap ℕ Str → GoMap Str LocalBaseQuery → Option QuerySetAdd
active_add id tokens queries = wanted (query_at (get tokens id) queries)

-- The server has the client's versions and exactly the client's queries.
pub record Mirrors (s : Server) (c : Client) : Type 0 where
  pub query_set : s.query_set ≡ c.query_set_version
  pub identity : s.identity ≡ c.identity_version
  pub queries : (id : ℕ) → get s.queries id ≡ active_add id c.query_id_to_token c.queries

abbrev pub id_of : Option LocalBaseQuery → Option ℕ
id_of none = none
id_of (some q) = some q.id

-- The subscribers of one query.
unfoldable pub count_of : ℕ → List (SubscriberId × Unit {0}) → ℕ
count_of id [] = 0
count_of id ((s, _) ∷ l) = (if s.query_id == id then 1 else 0) + count_of id l

-- The tables of queries, tokens and subscribers agree with one another, and the next id is unused.
pub record Agree (queries : GoMap Str LocalBaseQuery) (tokens : GoMap ℕ Str)
    (subscribers : GoMap SubscriberId (Unit {0})) (next : ℕ) : Type 0 where
  pub is_map : IsMap queries
  pub subscribers_map : IsMap subscribers
  pub has_query : (id : ℕ) (t : Str) → get tokens id ≡ some t → id_of (get queries t) ≡ some id
  pub has_token : (t : Str) (q : LocalBaseQuery) → get queries t ≡ some q → get tokens q.id ≡ some t
  pub fresh : (id : ℕ) → is_some (get tokens id) ≡ true → id < next
  pub subscribed :
      (s : SubscriberId)
      → is_some (get subscribers s) ≡ true
      → is_some (get tokens s.query_id) ≡ true
  pub counted :
      (t : Str) (q : LocalBaseQuery)
      → get queries t ≡ some q
      → count_of q.id subscribers.entries ≡ q.num_subscribers
  pub indexed :
      (t : Str) (q : LocalBaseQuery) (s : SubscriberId)
      → get queries t ≡ some q
      → is_some (get subscribers s) ≡ true
      → s.query_id ≡ q.id
      → s.index ≤ q.next_subscriber_idx

abbrev pub TablesAgree : Client → Type 0
TablesAgree c = Agree c.queries c.query_id_to_token c.subscribers c.next_query_id

-- From one state to a later one on the same connection: the tables still agree, and a server that
-- mirrors the first accepts the messages queued between, and then mirrors the second.
pub record Follows (c d : Client) : Type 0 where
  pub tables : TablesAgree d
  pub emits : List ClientMessage
  pub appended : d.outgoing ≡ c.outgoing ++ emits
  pub mirrored :
      (s : Server) → Mirrors s c → (t : Server) × (accept_all emits s ≡ some t) × Mirrors t d
