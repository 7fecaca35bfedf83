-- ===== src/BaseClient/Receive/Completion.antt =====
-- baseclient/client_receive.go: which pending requests a transition completes.
use convex_go.Prelude.{
  ℕ, ◌≡◌, refl, ap, ◌∙◌, if◌then◌else◌, ◌&&◌, Option, none, some, Bool, true, List, [], ◌∷◌, Str,
  arith, is_some, ltb,
}
use convex_go.Prelude.GoMap.{get, get-delete}
use convex_go.Prelude.GoMap.Iterate.{holds, elem, keys_where, elem-keys_where}
use convex_go.Prelude.Sort.{sort_slice, elem-sort_slice}
use convex_go.Prelude.Eq.{nat_eq, ◌=?◌}
use convex_go.Core.Wire.{Wire}
use convex_go.Protocol.{TransitionMessage, state_version_eq}
use convex_go.BaseClient.State.{Client, TrackedSyncRequest}
use convex_go.BaseClient.Results.{remember_mutation_result}
use convex_go.BaseClient.Receive.{
  complete_mutation_request, finish_found, complete_all, completes_by, complete_mutations_through,
  observe_timestamp, advance, apply_modifications, receive_transition,
}
use convex_go.BaseClient.Pending.{PendingAgree, same-Pending}
use convex_go.BaseClient.Pending.Server.{apply_modifications-Same, recompute-Same}

abbrev has_result : TrackedSyncRequest → Bool
has_result r = is_some r.result

finish_found-requests :
    (o : Option TrackedSyncRequest) (i j : ℕ) (c : Client)
    → get c.requests i ≡ o
    → get (finish_found o i c).0.requests j
      ≡ (if (i =? j) && holds has_result o then none else get c.requests j)
unfolding remember_mutation_result
finish_found-requests none i j c e = ground arith
finish_found-requests (some r) i j c e = ground (arith, get-delete c.requests i j)

complete_all-requests :
    (ids : List ℕ) (c : Client) (j : ℕ)
    → get (complete_all ids c).requests j
      ≡ (if elem j ids && holds has_result (get c.requests j) then none else get c.requests j)
unfolding complete_all elem complete_mutation_request
complete_all-requests [] c j = refl
complete_all-requests (i ∷ ids) c j = ground (
  arith,
  complete_all-requests ids (complete_mutation_request i c).0 j,
  finish_found-requests (get c.requests i) i j c refl,
  nat_eq.beq_iff i j,
)

complete_mutations_through-requests :
    (ts : ℕ) (c : Client) (id : ℕ)
    → PendingAgree c
    → get (complete_mutations_through ts c).requests id
      ≡ (if holds (completes_by ts) (get c.requests id) then none else get c.requests id)
unfolding complete_mutations_through
complete_mutations_through-requests ts c id h = ground (
  arith,
  complete_all-requests (sort_slice ltb (keys_where (completes_by ts) c.requests.entries)) c id,
  elem-sort_slice ltb id (keys_where (completes_by ts) c.requests.entries),
  elem-keys_where (completes_by ts) id c.requests h.is_map,
)

advance-requests :
    (m : TransitionMessage) (c : Client) (id : ℕ)
    → PendingAgree c
    → get (advance m c).requests id ≡ (
        if holds (completes_by m.end_version.ts) (get c.requests id)
        then none
        else get c.requests id)
unfolding advance observe_timestamp
advance-requests m c id h =
    let s = apply_modifications-Same m.modifications c in
    complete_mutations_through-requests m.end_version.ts
      (observe_timestamp m.end_version.ts
        (record (apply_modifications m.modifications c) { remote_version = m.end_version }))
      id (same-Pending s h)
    ∙ ap (λ rs. if holds (completes_by m.end_version.ts) (get rs id) then none else get rs id)
        s.requests

-- While the table of requests is well-formed, a transition from the client's version completes exactly
-- the pending mutations that have a response whose timestamp is at most the transition's, whether or
-- not the optimistic updates then fail. Every other request stays pending as it was.
pub receive_transition-requests :
    (marshal : Wire → Str) (m : TransitionMessage) (c : Client) (id : ℕ)
    → PendingAgree c
    → state_version_eq m.start_version c.remote_version ≡ true
    → get (receive_transition marshal m c).0.requests id ≡ (
        if holds (completes_by m.end_version.ts) (get c.requests id)
        then none
        else get c.requests id)
unfolding receive_transition
receive_transition-requests marshal m c id h e =
    ground (arith, advance-requests m c id h, recompute-Same marshal (advance m c))
