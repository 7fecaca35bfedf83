-- ===== src/BaseClient/QuerySet/Active.antt =====
-- How the changes of the tables change the query that stands under an id.
use convex_go.Prelude.{ℕ, ◌≡◌, none, some, Str, ◌==◌, arith, if◌then◌else◌, Option-cases, inl, inr}
use convex_go.Prelude.Eq.{nat_eq, str_eq, list_beq_iff}
use convex_go.Prelude.GoMap.{GoMap, get, put, delete, get-put, get-delete}
use convex_go.BaseClient.State.{SubscriberId, LocalBaseQuery}
use convex_go.BaseClient.Queries.{add_record}
use convex_go.BaseClient.QuerySet.{Agree, active_add}

module _ {queries : GoMap Str LocalBaseQuery} {tokens : GoMap ℕ Str}
    {subs : GoMap SubscriberId (Unit {0})} {next : ℕ} (h : Agree queries tokens subs next) where
  pub active_add-replace :
      (token : Str) (q r : LocalBaseQuery) (id : ℕ)
      → get queries token ≡ some q
      → add_record r ≡ add_record q
      → active_add id tokens (put queries token r) ≡ active_add id tokens queries
  active_add-replace token q r id e same = elim (Option-cases (get tokens id)) [
    | inl missing ↦ ground arith
    | inr (t, found) ↦ ground (arith, get-put queries token t r, list_beq_iff token t)
  ]

  pub active_add-enter :
      (token : Str) (q : LocalBaseQuery) (id : ℕ)
      → get queries token ≡ none
      → active_add id (put tokens q.id token) (put queries token q)
        ≡ (if q.id == id then some (add_record q) else active_add id tokens queries)
  active_add-enter token q id e = elim (Option-cases (get tokens id)) [
    | inl missing ↦ ground (
      arith,
      get-put tokens q.id id token,
      get-put queries token token q,
      list_beq_iff token token,
    )
    | inr (t, found) ↦ ground (
      arith,
      get-put tokens q.id id token,
      get-put queries token token q,
      get-put queries token t q,
      list_beq_iff token token,
      list_beq_iff token t,
      h.has_query id t,
    )
  ]

  pub active_add-remove :
      (token : Str) (q : LocalBaseQuery) (id : ℕ)
      → get queries token ≡ some q
      → active_add id (delete tokens q.id) (delete queries token)
        ≡ (if q.id == id then none else active_add id tokens queries)
  active_add-remove token q id e = elim (Option-cases (get tokens id)) [
    | inl missing ↦ ground (arith, get-delete tokens q.id id)
    | inr (t, found) ↦ ground (
      arith,
      get-delete tokens q.id id,
      get-delete queries token t,
      list_beq_iff token t,
      h.has_query id t,
    )
  ]
