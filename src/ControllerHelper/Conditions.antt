-- ===== src/ControllerHelper/Conditions.antt =====
-- internal/pkg/controllerhelper/aggregate.go: the per-node conditions, merged into the parent's.
pub mod Worst
use falco_operator.Common.{
  ℕ, zero, suc, ◌+◌, ◌-◌, String, Bool, true, false, ◌&&◌, ◌||◌, not, List, [], ◌∷◌, ◌++◌, Option,
  none, some, Map, lookup, insert, Eq, ◌==◌, string_eq, length, if◌then◌else◌, ltb, leb, append,
  join_strings, itoa, contains, ◌≡◌,
}
use text.Mathlib.Text.{is_le}
use Prim.Native.String.{compare}

-- `metav1.ConditionStatus`
pub data Status : Type 0 where
  status_true status_unknown status_false : Status

pub record Condition : Type 0 where
  pub type : String
  pub status : Status
  pub reason : String
  pub message : String
  pub observed_generation : ℕ

pub record NodeConditionSet : Type 0 where
  pub node_name : String
  pub conditions : List Condition

pub record Entry : Type 0 where
  pub worst_status : Status
  pub reason : String
  pub message : String
  pub failing_nodes : List String

abbrev pub new_entry : Entry
new_entry = record {
  worst_status = Status.status_true;
  reason = "";
  message = "";
  failing_nodes = [];
}

abbrev capture : Status → Condition → Entry → Entry
capture status c e = record e { worst_status = status; reason = c.reason; message = c.message }

abbrev with_node : String → Entry → Entry
with_node node e = record e { failing_nodes = e.failing_nodes ++ node ∷ [] }

-- The `switch` on the condition's status, for the entry's worst one so far.
abbrev pub merge_false : Status → String → Condition → Entry → Entry
merge_false Status.status_false node c e = with_node node e
merge_false Status.status_unknown node c e = capture Status.status_false c (with_node node e)
merge_false Status.status_true node c e = capture Status.status_false c (with_node node e)

abbrev pub merge_unknown : Status → Condition → Entry → Entry
merge_unknown Status.status_true c e = capture Status.status_unknown c e
merge_unknown Status.status_unknown c e = e
merge_unknown Status.status_false c e = e

abbrev pub merge_status : Status → String → Condition → Entry → Entry
merge_status Status.status_false node c e = merge_false e.worst_status node c e
merge_status Status.status_unknown node c e = merge_unknown e.worst_status c e
merge_status Status.status_true node c e =
    if e.reason == "" then record e { reason = c.reason; message = c.message } else e

abbrev pub or_new : Option Entry → Entry
or_new none = new_entry
or_new (some e) = e

unfoldable pub merge_condition : String → Condition → Map String Entry → Map String Entry
merge_condition node c by_type =
    insert c.type (merge_status c.status node c (or_new (lookup c.type by_type))) by_type

unfoldable pub merge_conditions : String → List Condition → Map String Entry → Map String Entry
unfolding merge_condition
merge_conditions node [] by_type = by_type
merge_conditions node (c ∷ rest) by_type =
    merge_conditions node rest (merge_condition node c by_type)

unfoldable pub merge_nodes : List NodeConditionSet → Map String Entry → Map String Entry
unfolding merge_conditions
merge_nodes [] by_type = by_type
merge_nodes (ns ∷ rest) by_type =
    merge_nodes rest (merge_conditions ns.node_name ns.conditions by_type)

-- `sort.Strings`
abbrev string_leb : String → String → Bool
string_leb a b = is_le (compare a b)

insert_string : String → List String → List String
insert_string s [] = s ∷ []
insert_string s (t ∷ rest) =
    let later = insert_string s rest in if string_leb s t then s ∷ t ∷ rest else t ∷ later

unfoldable pub sort_strings : List String → List String
unfolding insert_string
sort_strings [] = []
sort_strings (s ∷ rest) = insert_string s (sort_strings rest)

abbrev pub take_strings : ℕ → List String → List String
take_strings zero xs = []
take_strings (suc n) [] = []
take_strings (suc n) (x ∷ xs) = x ∷ take_strings n xs

abbrev pub max_failing_nodes_listed : ℕ
max_failing_nodes_listed = 5

unfoldable pub append_failing_nodes : String → List String → String
unfolding sort_strings itoa join_strings
append_failing_nodes message failing_nodes =
    let names = sort_strings failing_nodes in
    let shown = take_strings max_failing_nodes_listed names in
    let suffix =
      if ltb max_failing_nodes_listed (length names)
      then append " (+" (append (itoa (length names - max_failing_nodes_listed)) " more)")
      else "" in
    let nodes_part = append "failing nodes: " (append (join_strings ", " shown) suffix) in
    if message == "" then nodes_part else append message (append " (" (append nodes_part ")"))

unfoldable pub message_of : Status → Entry → String
unfolding append_failing_nodes
message_of Status.status_false e = append_failing_nodes e.message e.failing_nodes
message_of Status.status_unknown e = e.message
message_of Status.status_true e = e.message

unfoldable pub to_condition : ℕ → String → Entry → Condition
unfolding message_of
to_condition generation type e = record {
  type = type;
  status = e.worst_status;
  reason = e.reason;
  message = message_of e.worst_status e;
  observed_generation = generation;
}

unfoldable pub insert_condition : Condition → List Condition → List Condition
insert_condition c [] = c ∷ []
insert_condition c (x ∷ rest) =
    let later = insert_condition c rest in
    if string_leb c.type x.type then c ∷ x ∷ rest else x ∷ later

-- The entries as conditions, sorted by type.
unfoldable pub sorted_conditions : ℕ → Map String Entry → List Condition
unfolding to_condition insert_condition
sorted_conditions generation [] = []
sorted_conditions generation ((type, e) ∷ rest) =
    insert_condition (to_condition generation type e) (sorted_conditions generation rest)

unfoldable pub aggregate_conditions : List NodeConditionSet → ℕ → List Condition
unfolding merge_nodes sorted_conditions
aggregate_conditions [] generation =
    (record {
      type = "Programmed";
      status = Status.status_unknown;
      reason = "NoNodesAssigned";
      message = "No nodes are assigned to this artifact.";
      observed_generation = generation;
    })
    ∷ []
aggregate_conditions (ns ∷ rest) generation =
    sorted_conditions generation (merge_nodes (ns ∷ rest) [])

-- `apimeta.FindStatusCondition`
unfoldable pub find_condition : String → List Condition → Option Condition
find_condition type [] = none
find_condition type (c ∷ rest) = if c.type == type then some c else find_condition type rest
