-- ===== src/ControllerHelper/NodeObjects/Tests.antt =====
-- Names and metadata of concrete node objects.
use falco_operator.Common.{
  String, Bool, true, false, List, [], ◌∷◌, none, some, ◌≡◌, ◌≢◌, ◌≤◌, ◌<◌, ◌+◌, refl, arith,
  append, Map, lookup, insert, Distinct, inl, string_eq,
}
use falco_operator.ControllerHelper.Conditions.{Status, Condition}
use falco_operator.ControllerHelper.Programmed.{
  compute_programmed_condition, compute_programmed_condition-is_true, is_true,
}
use falco_operator.ControllerHelper.NodeObjects.{
  node_object_name, full_name, max_k8s_name_len, Owner, NodeMeta, enforce_node_object_meta,
  has_labels, has_owner, copy_labels, other_kinds,
}
use falco_operator.ControllerHelper.NodeObjects.Names.{
  node_object_name-fits, node_object_name-panics,
}
use falco_operator.ControllerHelper.NodeObjects.Enforced.{
  OnlyOwner, enforce_node_object_meta-settles,
}
use Prim.Native.String.{len}

abbrev short_hash : String → String
short_hash s = "01234567"

hash_len : (s : String) → len (short_hash s) ≡ 8
hash_len s = refl

short_kind : len "plugin" ≤ 9
short_kind = omega arith

not_239 : len "plugin" + len "node-1" ≢ 239
not_239 e = omega (arith, e)

not_240 : len "plugin" + len "node-1" ≢ 240
not_240 e = omega (arith, e)

node_object_name-fits_example :
    (name : String) × (node_object_name short_hash "plugin" "json" "node-1" ≡ some name)
    × (len name ≤ max_k8s_name_len)
node_object_name-fits_example =
    node_object_name-fits short_hash hash_len "plugin" "json" "node-1" short_kind not_239 not_240

-- 60 and 233 bytes
abbrev sixty : String
sixty = "nnnnnnnnnnnnnnnnnnnnnnnnnnnnnnnnnnnnnnnnnnnnnnnnnnnnnnnnnnnn"

abbrev long_name : String
long_name =
    append sixty
      (append sixty (append sixty "nnnnnnnnnnnnnnnnnnnnnnnnnnnnnnnnnnnnnnnnnnnnnnnnnnnnn"))

too_long : max_k8s_name_len < len (full_name "plugin" "json-plugin" long_name)
too_long = omega arith

node_object_name-panics_example :
    node_object_name short_hash "plugin" "json-plugin" long_name ≡ none
node_object_name-panics_example =
    node_object_name-panics short_hash hash_len "plugin" "json-plugin" long_name (inl refl) too_long

abbrev owner : Owner
owner = record { kind = "Plugin"; name = "json"; uid = "uid-2" }

abbrev stale : Owner
stale = record { kind = "Plugin"; name = "json"; uid = "uid-1" }

abbrev desired : Map String String
desired = ("kind", "plugin") ∷ ("parent", "json") ∷ []

abbrev object : NodeMeta
object = record { labels = ("team", "a") ∷ ("kind", "config") ∷ []; owners = stale ∷ [] }

abbrev patched_object : NodeMeta
patched_object = record {
  labels = ("team", "a") ∷ ("kind", "plugin") ∷ ("parent", "json") ∷ [];
  owners = owner ∷ [];
}

desired-Distinct : Distinct desired
unfolding lookup
desired-Distinct = (refl, (refl, tt))

patches : enforce_node_object_meta desired owner object ≡ some patched_object
unfolding enforce_node_object_meta has_labels has_owner copy_labels other_kinds lookup insert
patches = refl

enforce_node_object_meta-settles_example :
    (enforce_node_object_meta desired owner patched_object ≡ none)
    × ((k : String)
        → lookup k desired ≡ none
        → lookup k patched_object.labels ≡ lookup k object.labels)
    × (has_owner owner object.owners ≡ false → OnlyOwner owner patched_object.owners)
enforce_node_object_meta-settles_example =
    enforce_node_object_meta-settles desired owner object patched_object desired-Distinct patches

abbrev conditions : List Condition
conditions =
    record {
      type = "OCIArtifactProgrammed";
      status = Status.status_true;
      reason = "";
      message = "";
      observed_generation = 1;
    }
    ∷ []

abbrev skip : String → Bool
skip type = false

compute_programmed_condition-is_true_example :
    is_true (compute_programmed_condition skip conditions "P" "m" "F" 1).status ≡ true
compute_programmed_condition-is_true_example =
    compute_programmed_condition-is_true skip conditions "P" "m" "F" 1
