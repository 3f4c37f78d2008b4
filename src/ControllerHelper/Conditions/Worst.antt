-- ===== src/ControllerHelper/Conditions/Worst.antt =====
-- What `AggregateConditions` reports of a condition type.
use falco_operator.Common.{
  ℕ, String, Bool, true, false, ◌||◌, List, [], ◌∷◌, ◌++◌, Option, none, some, Map, lookup, insert,
  lookup-insert, Distinct, insert-Distinct, ◌==◌, string_eq, if◌then◌else◌, ◌≡◌, refl, eq_iff,
  arith,
}
use falco_operator.ControllerHelper.Conditions.{
  Status, Condition, NodeConditionSet, Entry, merge_status, or_new, merge_condition,
  merge_conditions, merge_nodes, to_condition, insert_condition, sorted_conditions,
  aggregate_conditions, find_condition,
}

-- All that the nodes report of a type, in order.
abbrev pub statuses_in : String → List Condition → List Status
statuses_in type [] = []
statuses_in type (c ∷ rest) =
    let later = statuses_in type rest in if c.type == type then c.status ∷ later else later

abbrev pub statuses_of : String → List NodeConditionSet → List Status
statuses_of type [] = []
statuses_of type (ns ∷ rest) = statuses_in type ns.conditions ++ statuses_of type rest

abbrev pub is_false : Status → Bool
is_false Status.status_false = true
is_false Status.status_unknown = false
is_false Status.status_true = false

abbrev pub is_unknown : Status → Bool
is_unknown Status.status_false = false
is_unknown Status.status_unknown = true
is_unknown Status.status_true = false

abbrev pub has : (Status → Bool) → List Status → Bool
has f [] = false
has f (s ∷ rest) = f s || has f rest

-- False wins over Unknown, which wins over True; a type that no node reports has no condition.
abbrev pub worst_of : List Status → Status
worst_of list =
    if has is_false list
    then Status.status_false
    else if has is_unknown list
    then Status.status_unknown
    else Status.status_true

abbrev pub reported : List Status → Option Status
reported [] = none
reported (s ∷ rest) = some (worst_of (s ∷ rest))

abbrev worst_in : Option Entry → Option Status
worst_in none = none
worst_in (some e) = some e.worst_status

abbrev pub status_in : Option Condition → Option Status
status_in none = none
status_in (some c) = some c.status

-- The statuses so far, and then these.
abbrev then_reported : Option Status → List Status → Option Status
then_reported none list = reported list
then_reported (some s) list = some (worst_of (s ∷ list))

merge_status-worst :
    (s : Status) (node : String) (c : Condition) (e : Entry)
    → (merge_status s node c e).worst_status ≡ worst_of (e.worst_status ∷ s ∷ [])
merge_status-worst Status.status_false node c e = ground arith
merge_status-worst Status.status_unknown node c e = ground arith
merge_status-worst Status.status_true node c e = ground arith

merge_conditions-worst :
    (type node : String) (cs : List Condition) (m : Map String Entry)
    → worst_in (lookup type (merge_conditions node cs m))
      ≡ then_reported (worst_in (lookup type m)) (statuses_in type cs)
unfolding merge_conditions merge_condition
merge_conditions-worst type node [] m = ground arith
merge_conditions-worst type node (c ∷ cs) m =
    let e = or_new (lookup c.type m) in
    let e' = merge_status c.status node c e in
    ground (
      arith,
      eq_iff c.type type,
      merge_conditions-worst type node cs (insert c.type e' m),
      merge_status-worst c.status node c e,
      lookup-insert c.type type e' m,
    )

has-append : (f : Status → Bool) (xs ys : List Status) → has f (xs ++ ys) ≡ (has f xs || has f ys)
has-append f [] ys = refl
has-append f (x ∷ xs) ys = ground (arith, has-append f xs ys)

then_reported-append :
    (o : Option Status) (xs ys : List Status)
    → then_reported (then_reported o xs) ys ≡ then_reported o (xs ++ ys)
then_reported-append none [] ys = refl
then_reported-append none (x ∷ xs) ys =
    ground (arith, has-append is_false xs ys, has-append is_unknown xs ys)
then_reported-append (some s) xs ys =
    ground (arith, has-append is_false xs ys, has-append is_unknown xs ys)

merge_nodes-worst :
    (type : String) (nodes : List NodeConditionSet) (m : Map String Entry)
    → worst_in (lookup type (merge_nodes nodes m))
      ≡ then_reported (worst_in (lookup type m)) (statuses_of type nodes)
unfolding merge_nodes
merge_nodes-worst type [] m = ground arith
merge_nodes-worst type (ns ∷ rest) m = ground (
  arith,
  merge_nodes-worst type rest (merge_conditions ns.node_name ns.conditions m),
  merge_conditions-worst type ns.node_name ns.conditions m,
  then_reported-append (worst_in (lookup type m)) (statuses_in type ns.conditions)
      (statuses_of type rest),
)

merge_conditions-Distinct :
    (node : String) (cs : List Condition) (m : Map String Entry)
    → Distinct m
    → Distinct (merge_conditions node cs m)
unfolding merge_conditions merge_condition
merge_conditions-Distinct node [] m h = h
merge_conditions-Distinct node (c ∷ cs) m h =
    let e = merge_status c.status node c (or_new (lookup c.type m)) in
    merge_conditions-Distinct node cs (insert c.type e m) (insert-Distinct c.type e m h)

merge_nodes-Distinct :
    (nodes : List NodeConditionSet) (m : Map String Entry)
    → Distinct m
    → Distinct (merge_nodes nodes m)
unfolding merge_nodes
merge_nodes-Distinct [] m h = h
merge_nodes-Distinct (ns ∷ rest) m h =
    merge_nodes-Distinct rest (merge_conditions ns.node_name ns.conditions m)
      (merge_conditions-Distinct ns.node_name ns.conditions m h)

-- The sort keeps what a type finds, where no type stands twice.
find-insert_condition :
    (type : String) (c : Condition) (cs : List Condition)
    → find_condition c.type cs ≡ none
    → find_condition type (insert_condition c cs)
      ≡ (if c.type == type then some c else find_condition type cs)
unfolding find_condition insert_condition
find-insert_condition type c [] h = refl
find-insert_condition type c (x ∷ rest) h = ground (
  arith,
  h,
  eq_iff c.type type,
  eq_iff x.type c.type,
  eq_iff x.type type,
  find-insert_condition type c rest,
)

abbrev entry_condition : ℕ → String → Option Entry → Option Condition
entry_condition generation type none = none
entry_condition generation type (some e) = some (to_condition generation type e)

find-sorted_conditions :
    (type : String) (generation : ℕ) (m : Map String Entry)
    → Distinct m
    → find_condition type (sorted_conditions generation m)
      ≡ entry_condition generation type (lookup type m)
unfolding sorted_conditions lookup find_condition to_condition
find-sorted_conditions type generation [] h = refl
find-sorted_conditions type generation ((k, e) ∷ rest) h = ground (
  arith,
  h,
  eq_iff k type,
  find-insert_condition type (to_condition generation k e) (sorted_conditions generation rest),
  find-sorted_conditions type generation rest h.1,
  find-sorted_conditions k generation rest h.1,
)

-- The aggregate of at least one node has a condition of a type just when some node reports one, and
-- its status is the worst that the nodes report: False wins over Unknown, which wins over True.
pub aggregate-worst :
    (type : String) (ns : NodeConditionSet) (rest : List NodeConditionSet) (generation : ℕ)
    → status_in (find_condition type (aggregate_conditions (ns ∷ rest) generation))
      ≡ reported (statuses_of type (ns ∷ rest))
unfolding aggregate_conditions to_condition lookup
aggregate-worst type ns rest generation = ground (
  arith,
  merge_nodes-worst type (ns ∷ rest) [],
  find-sorted_conditions type generation (merge_nodes (ns ∷ rest) [])
      (merge_nodes-Distinct (ns ∷ rest) [] tt),
)
