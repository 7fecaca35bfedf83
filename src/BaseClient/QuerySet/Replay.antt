-- ===== src/BaseClient/QuerySet/Replay.antt =====
-- baseclient/client_receive.go: the adds that a restart sends (replayQueryAdds).
use convex_go.Prelude.{
  ℕ, ◌≡◌, refl, ◌∙◌, none, some, Option, List, [], ◌∷◌, map, Str, ◌||◌, true, arith, is_some, All,
  Option-cases, inl, inr, ◌⊎◌,
}
use convex_go.Prelude.Eq.{nat_eq, str_eq}
use convex_go.Prelude.GoMap.{GoMap, get, put, empty, lookup, get-put, get-empty}
use convex_go.Prelude.GoMap.Iterate.{elem, values_where, All-values_where}
use convex_go.Prelude.Sort.{elem-map-sort_slice, All-sort_slice}
use convex_go.Protocol.{QuerySetAdd}
use convex_go.BaseClient.State.{SubscriberId, LocalBaseQuery}
use convex_go.BaseClient.Optimistic.{sorted_base_queries}
use convex_go.BaseClient.Queries.{add_of, add_record}
use convex_go.BaseClient.QuerySet.{Agree, apply_mods, active_add}

abbrev ids_of : List LocalBaseQuery → List ℕ
ids_of = map λ q. q.id

-- Applying adds makes the ids known, and only those.
known_ids :
    (qs : List LocalBaseQuery) (m : GoMap ℕ QuerySetAdd) (id : ℕ)
    → is_some (get (apply_mods (map add_of qs) m) id) ≡ (elem id (ids_of qs) || is_some (get m id))
unfolding apply_mods elem
known_ids [] m id = refl
known_ids (q ∷ qs) m id =
    ground (arith, known_ids qs (put m q.id (add_record q)) id, get-put m q.id id (add_record q))

module _ (active : ℕ → Option QuerySetAdd) where
  abbrev Right : GoMap ℕ QuerySetAdd → ℕ → Type 0
  Right m id = (get m id ≡ none) ⊎ (get m id ≡ active id)

  abbrev IsRight : LocalBaseQuery → Type 0
  IsRight q = active q.id ≡ some (add_record q)

  -- What the adds put under an id is what is wanted there.
  apply_mods-Right :
      (qs : List LocalBaseQuery) (m : GoMap ℕ QuerySetAdd) (id : ℕ)
      → All IsRight qs
      → Right m id
      → Right (apply_mods (map add_of qs) m) id
  unfolding apply_mods
  apply_mods-Right [] m id h r = r
  apply_mods-Right (q ∷ qs) m id h r =
      apply_mods-Right qs (put m q.id (add_record q)) id h.1
        (ground (arith, get-put m q.id id (add_record q), h.0))

visited :
    (t : Str) (q : LocalBaseQuery) (l : List (Str × LocalBaseQuery))
    → lookup t l ≡ some q
    → elem q.id (ids_of (values_where (λ _. true) l)) ≡ true
unfolding lookup elem values_where
visited t q [] h = ground arith
visited t q ((u, p) ∷ l) h = ground (arith, visited t q l)

module _ {queries : GoMap Str LocalBaseQuery} {tokens : GoMap ℕ Str}
    {subs : GoMap SubscriberId (Unit {0})} {next : ℕ} (h : Agree queries tokens subs next) where
  All-IsRight : All (IsRight (λ id. active_add id tokens queries)) (sorted_base_queries queries)
  unfolding sorted_base_queries
  All-IsRight =
      All-sort_slice _ _ _
        (All-values_where _ _ queries h.is_map λ t q found. ground (arith, h.has_token t q))

  active_visited :
      (id : ℕ)
      → is_some (active_add id tokens queries) ≡ true
      → elem id (ids_of (sorted_base_queries queries)) ≡ true
  unfolding sorted_base_queries get
  active_visited id a = elim (Option-cases (get tokens id)) [
    | inl missing ↦ ground arith
    | inr (t, found) ↦ elim (Option-cases (get queries t)) [
      | inl gone ↦ ground (arith, h.has_query id t)
      | inr (q, there) ↦
          elem-map-sort_slice _ (λ (q : LocalBaseQuery). q.id) id _
          ∙ ground (arith, visited t q queries.entries, h.has_query id t)
    ]
  ]

  -- On a new connection the adds give every id its query, and no other id one.
  pub replay-active :
      (id : ℕ)
      → get (apply_mods (map add_of (sorted_base_queries queries)) empty) id
        ≡ active_add id tokens queries
  replay-active id = ground (
    arith,
    known_ids (sorted_base_queries queries) empty id,
    apply_mods-Right (λ id. active_add id tokens queries) (sorted_base_queries queries) empty id
        All-IsRight (inl (get-empty id)),
    active_visited id,
    get-empty {K = ℕ} {V = QuerySetAdd} id,
  )
