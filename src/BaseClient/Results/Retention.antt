-- ===== src/BaseClient/Results/Retention.antt =====
-- baseclient/client_receive.go: the retention of finished requests.
use convex_go.Prelude.{
  ℕ, suc, ◌≡◌, ◌≤◌, ◌||◌, true, List, [], ◌∷◌, ◌++◌, arith, is_some, Bool-cases, inl, inr, ltb,
  length,
}
use convex_go.Prelude.GoMap.{GoMap, get, put, delete, get-put, get-delete}
use convex_go.Prelude.GoMap.Iterate.{elem}
use convex_go.Prelude.Eq.{nat_eq, ◌=?◌}
use convex_go.Core.FunctionResult.{FunctionResult}
use convex_go.BaseClient.State.{Client}
use convex_go.BaseClient.Results.{
  evict_order, evicted, remember_mutation_result, remember_action_result,
  normalized_retention_limit,
}

-- Every key of the table is in the order.
abbrev pub Listed {ℓ} : {V : Type ℓ} → List ℕ → GoMap ℕ V → Type 0
Listed order m = (id : ℕ) → is_some (get m id) ≡ true → elem id order ≡ true

length-evict_order : (limit : ℕ) (ids : List ℕ) → length (evict_order limit ids) ≤ limit
unfolding evict_order
length-evict_order limit [] = omega arith
length-evict_order limit (id ∷ ids) = ground (arith, length-evict_order limit ids)

elem-snoc : (j id : ℕ) (ids : List ℕ) → elem j (ids ++ id ∷ []) ≡ (elem j ids || id =? j)
unfolding elem
elem-snoc j id [] = ground arith
elem-snoc j id (i ∷ ids) = ground (arith, elem-snoc j id ids)

module _ {ℓ} {V : Type ℓ} where
  delete-Listed :
      (id : ℕ) (ids : List ℕ) (m : GoMap ℕ V) → Listed (id ∷ ids) m → Listed ids (delete m id)
  unfolding elem
  delete-Listed id ids m h j e = ground (arith, h j, get-delete m id j)

  evicted-Listed :
      (limit : ℕ) (ids : List ℕ) (m : GoMap ℕ V)
      → Listed ids m
      → Listed (evict_order limit ids) (evicted limit ids m)
  unfolding evict_order evicted
  evicted-Listed limit [] m h = h
  evicted-Listed limit (id ∷ ids) m h = elim (Bool-cases (ltb limit (suc (length ids)))) [
    | inl over ↦ rw over (evicted-Listed limit ids (delete m id) (delete-Listed id ids m h))
    | inr within ↦ rw within h
  ]

  put-Listed :
      (id : ℕ) (v : V) (ids : List ℕ) (m : GoMap ℕ V)
      → Listed ids m
      → Listed (ids ++ id ∷ []) (put m id v)
  put-Listed id v ids m h j e = ground (arith, h j, get-put m id j v, elem-snoc j id ids)

-- What is kept of finished requests: at most as many ids as the limit, and results of those only.
pub record IsRetained (c : Client) : Type 0 where
  pub mutation_bound : length c.completed_mutation_order ≤ normalized_retention_limit
  pub mutation_results : Listed c.completed_mutation_order c.mutation_results
  pub completed_mutations : Listed c.completed_mutation_order c.completed_mutations
  pub action_bound : length c.action_result_order ≤ normalized_retention_limit
  pub action_results : Listed c.action_result_order c.action_results

pub record SameRetained (c d : Client) : Type 0 where
  pub mutation_order : d.completed_mutation_order ≡ c.completed_mutation_order
  pub mutation_results : d.mutation_results ≡ c.mutation_results
  pub completed_mutations : d.completed_mutations ≡ c.completed_mutations
  pub action_order : d.action_result_order ≡ c.action_result_order
  pub action_results : d.action_results ≡ c.action_results

pub same-IsRetained : {c d : Client} → SameRetained c d → IsRetained c → IsRetained d
same-IsRetained s h = record {
  mutation_bound = rw s.mutation_order h.mutation_bound;
  mutation_results = rw (s.mutation_order, s.mutation_results) h.mutation_results;
  completed_mutations = rw (s.mutation_order, s.completed_mutations) h.completed_mutations;
  action_bound = rw s.action_order h.action_bound;
  action_results = rw (s.action_order, s.action_results) h.action_results;
}

pub remember_mutation_result-IsRetained :
    (id : ℕ) (r : FunctionResult) (c : Client)
    → IsRetained c
    → IsRetained (remember_mutation_result id r c)
unfolding remember_mutation_result
remember_mutation_result-IsRetained id r c h = record {
  mutation_bound =
      length-evict_order normalized_retention_limit (c.completed_mutation_order ++ id ∷ []);
  mutation_results =
      evicted-Listed normalized_retention_limit _ _
        (put-Listed id r c.completed_mutation_order c.mutation_results h.mutation_results);
  completed_mutations =
      evicted-Listed normalized_retention_limit _ _
        (put-Listed id tt c.completed_mutation_order c.completed_mutations h.completed_mutations);
  action_bound = h.action_bound;
  action_results = h.action_results;
}

pub remember_action_result-IsRetained :
    (id : ℕ) (r : FunctionResult) (c : Client)
    → IsRetained c
    → IsRetained (remember_action_result id r c)
unfolding remember_action_result
remember_action_result-IsRetained id r c h = record {
  mutation_bound = h.mutation_bound;
  mutation_results = h.mutation_results;
  completed_mutations = h.completed_mutations;
  action_bound = length-evict_order normalized_retention_limit (c.action_result_order ++ id ∷ []);
  action_results =
      evicted-Listed normalized_retention_limit _ _
        (put-Listed id r c.action_result_order c.action_results h.action_results);
}
