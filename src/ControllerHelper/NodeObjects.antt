-- ===== src/ControllerHelper/NodeObjects.antt =====
-- internal/pkg/controllerhelper/nodeobject.go: the name, labels and owner of a per-node object.
pub mod Names
pub mod Enforced
pub mod Tests
use falco_operator.Common.{
  ℕ, ◌+◌, ◌-◌, ◌*◌, String, Bool, true, false, ◌&&◌, ◌||◌, not, List, [], ◌∷◌, ◌++◌, Option, none,
  some, ◌==◌, string_eq, if◌then◌else◌, append, ltb, leb, Map, lookup, insert, map,
}
use Prim.Native.String.{len, slice}

abbrev pub max_k8s_name_len : ℕ
max_k8s_name_len = 253

abbrev pub separator : String
separator = "--"

abbrev pub label_artifact_parent : String
label_artifact_parent = "artifact.falcosecurity.dev/parent"

abbrev pub label_artifact_node : String
label_artifact_node = "artifact.falcosecurity.dev/node"

abbrev pub label_artifact_kind : String
label_artifact_kind = "artifact.falcosecurity.dev/kind"

-- `s[:n]`, which panics past the end of the text.
unfoldable pub cut : String → ℕ → Option String
cut s n = if leb n (len s) then some (slice s 0 n) else none

abbrev pub full_name : String → String → String → String
full_name kind artifact_name node_name =
    append kind (append separator (append artifact_name (append separator node_name)))

abbrev pub or_panic : Option String → (String → String) → Option String
or_panic none f = none
or_panic (some s) f = some (f s)

-- `short_hash` is the first 8 digits of the SHA-256 of the full name. The names of Kubernetes
-- objects are ASCII, so that a byte is a character.
unfoldable pub node_object_name : (String → String) → String → String → String → Option String
unfolding cut
node_object_name short_hash kind artifact_name node_name =
    let full = full_name kind artifact_name node_name in
    if leb (len full) max_k8s_name_len
    then some full
    else (let hash = short_hash full in
        let suffix = append separator hash in
        let kind_part = append kind separator in
        let node_part_len = len separator + len node_name in
        let available = max_k8s_name_len - len kind_part - node_part_len - len suffix in
        if ltb available 1
        then or_panic (cut node_name (max_k8s_name_len - len kind - len hash - 2 * len separator))
            (λ node. append kind (append separator (append hash (append separator node))))
        else or_panic (cut artifact_name available) (λ artifact.
          append kind_part (append artifact (append separator (append node_name suffix)))))

unfoldable pub node_object_labels : String → String → String → Map String String
node_object_labels kind artifact_name node_name =
    (label_artifact_parent, artifact_name)
    ∷ (label_artifact_node, node_name)
    ∷ (label_artifact_kind, kind)
    ∷ []

-- `metav1.OwnerReference`, its kind, name and UID.
pub record Owner : Type 0 where
  pub kind : String
  pub name : String
  pub uid : String

abbrev is_label : Option String → String → Bool
is_label none want = false
is_label (some got) want = got == want

unfoldable pub has_labels : Map String String → Map String String → Bool
has_labels labels [] = true
has_labels labels ((k, want) ∷ rest) = is_label (lookup k labels) want && has_labels labels rest

abbrev pub same_owner : Owner → Owner → Bool
same_owner a b = a.kind == b.kind && (a.name == b.name && a.uid == b.uid)

unfoldable pub has_owner : Owner → List Owner → Bool
has_owner desired [] = false
has_owner desired (ref ∷ rest) = same_owner ref desired || has_owner desired rest

-- `maps.Copy`
unfoldable pub copy_labels : Map String String → Map String String → Map String String
copy_labels merged [] = merged
copy_labels merged ((k, v) ∷ rest) = copy_labels (insert k v merged) rest

-- The references of another kind.
unfoldable pub other_kinds : String → List Owner → List Owner
other_kinds kind [] = []
other_kinds kind (ref ∷ rest) =
    let kept = other_kinds kind rest in if ref.kind == kind then kept else ref ∷ kept

pub record NodeMeta : Type 0 where
  pub labels : Map String String
  pub owners : List Owner

-- The metadata that `EnforceNodeObjectMeta` patches; `none` where nothing needs a patch.
unfoldable pub enforce_node_object_meta : Map String String → Owner → NodeMeta → Option NodeMeta
unfolding has_labels has_owner copy_labels other_kinds
enforce_node_object_meta desired owner node =
    let owned = has_owner owner node.owners in
    if has_labels node.labels desired && owned
    then none
    else some (record {
      labels = copy_labels node.labels desired;
      owners = if owned then node.owners else other_kinds owner.kind node.owners ++ owner ∷ [];
    })
