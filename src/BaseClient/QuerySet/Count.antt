-- ===== src/BaseClient/QuerySet/Count.antt =====
-- How many subscribers a query has, as subscribers come and go.
use convex_go.Prelude.{
  ℕ, ◌+◌, ◌<◌, ◌≡◌, none, List, [], ◌∷◌, if◌then◌else◌, ◌==◌, arith, is_some, true, false,
}
use convex_go.Prelude.GoMap.{GoMap, lookup, without, get, put, delete}
use convex_go.Prelude.GoMap.Iterate.{Distinct, IsMap}
use convex_go.BaseClient.State.{SubscriberId, subscriber_eq, subscriber_beq_iff}
use convex_go.BaseClient.QuerySet.{count_of}

abbrev one_if : ℕ → SubscriberId → ℕ
one_if id s = if s.query_id == id then 1 else 0

count-without_absent :
    (id : ℕ) (s : SubscriberId) (l : List (SubscriberId × Unit {0}))
    → lookup s l ≡ none
    → count_of id (without s l) ≡ count_of id l
unfolding count_of lookup without
count-without_absent id s [] h = ground arith
count-without_absent id s ((t, u) ∷ l) h = ground (arith, count-without_absent id s l)

count-without :
    (id : ℕ) (s : SubscriberId) (l : List (SubscriberId × Unit {0}))
    → Distinct l
    → is_some (lookup s l) ≡ true
    → count_of id l ≡ one_if id s + count_of id (without s l)
unfolding count_of lookup without
count-without id s [] d h = ground arith
count-without id s ((t, u) ∷ l) d h =
    ground
      (arith, count-without id s l d.1, count-without_absent id t l d.0, subscriber_beq_iff t s)

pub count-put :
    (id : ℕ) (s : SubscriberId) (m : GoMap SubscriberId (Unit {0}))
    → get m s ≡ none
    → count_of id (put m s tt).entries ≡ one_if id s + count_of id m.entries
unfolding get put count_of
count-put id s m h = ground (arith, count-without_absent id s m.entries)

pub count-delete :
    (id : ℕ) (s : SubscriberId) (m : GoMap SubscriberId (Unit {0}))
    → IsMap m
    → is_some (get m s) ≡ true
    → count_of id m.entries ≡ one_if id s + count_of id (delete m s).entries
unfolding get delete
count-delete id s m d h = count-without id s m.entries d h

count-pos_list :
    (id : ℕ) (s : SubscriberId) (l : List (SubscriberId × Unit {0}))
    → is_some (lookup s l) ≡ true
    → s.query_id ≡ id
    → 0 < count_of id l
unfolding count_of lookup
count-pos_list id s [] h e = ground arith
count-pos_list id s ((t, u) ∷ l) h e = ground (arith, count-pos_list id s l, subscriber_beq_iff t s)

-- A query with a subscriber counts at least one.
pub count-pos :
    (id : ℕ) (s : SubscriberId) (m : GoMap SubscriberId (Unit {0}))
    → is_some (get m s) ≡ true
    → s.query_id ≡ id
    → 0 < count_of id m.entries
unfolding get
count-pos id s m h e = count-pos_list id s m.entries h e

count-zero_list :
    (id : ℕ) (l : List (SubscriberId × Unit {0}))
    → ((s : SubscriberId) → is_some (lookup s l) ≡ true → (s.query_id == id) ≡ false)
    → count_of id l ≡ 0
unfolding count_of lookup
count-zero_list id [] h = ground arith
count-zero_list id ((t, u) ∷ l) h =
    ground (arith, h t, subscriber_beq_iff t t, count-zero_list id l (λ s k. ground (arith, h s)))

-- Where no subscriber names a query, its count is zero.
pub count-zero :
    (id : ℕ) (m : GoMap SubscriberId (Unit {0}))
    → ((s : SubscriberId) → is_some (get m s) ≡ true → (s.query_id == id) ≡ false)
    → count_of id m.entries ≡ 0
unfolding get
count-zero id m h = count-zero_list id m.entries h
