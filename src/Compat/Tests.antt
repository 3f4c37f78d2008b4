-- ===== src/Compat/Tests.antt =====
-- The version theorems with a concrete reading of versions.
use falco_operator.Common.{
  ℕ, String, true, List, [], ◌∷◌, Option, none, some, ok, ◌==◌, string_eq, if◌then◌else◌, leb, ◌≡◌,
  ◌⊎◌, ◌↔◌, All, arith,
}
use falco_operator.Compat.{VersionLib, Dependency, validate_plugin_dependency}
use falco_operator.Compat.Validate.{DistinctNames, IsReadable, validate_plugin_dependency_iff}

abbrev parse : String → Option ℕ
parse s =
    if s == "1.0.0"
    then some 100
    else if s == "1.2.0"
    then some 120
    else if s == "2.0.0"
    then some 200
    else none

abbrev scan : String → Option (ℕ × ℕ × ℕ)
scan s =
    if s == "1.0.0"
    then some (1, 0, 0)
    else if s == "1.2.0"
    then some (1, 2, 0)
    else if s == "2.0.0"
    then some (2, 0, 0)
    else none

abbrev major : ℕ → ℕ
major n = if leb 200 n then 2 else 1

pub gte_trans : (a b c : ℕ) → leb b a ≡ true → leb c b ≡ true → leb c a ≡ true
gte_trans a b c h k = ground arith

pub gte_total : (a b : ℕ) → (leb b a ≡ true) ⊎ (leb a b ≡ true)
gte_total a b = ground arith

abbrev pub versions : VersionLib
versions = record {
  Version = ℕ;
  parse_tolerant = parse;
  major = major;
  gte = λ a b. leb b a;
  scan = scan;
  gte_trans = gte_trans;
  gte_total = gte_total;
}

abbrev group : List Dependency
group =
    (record { name = "json"; version = "1.0.0" })
    ∷ (record { name = "json2"; version = "1.2.0" })
    ∷ []

validate_plugin_dependency_iff_example :
    (validate_plugin_dependency versions group ≡ ok tt)
    ↔ (All (IsReadable versions) group × DistinctNames group)
validate_plugin_dependency_iff_example = validate_plugin_dependency_iff versions group
