-- ===== src/Compat.antt =====
-- internal/pkg/compat/requirements.go: the version comparisons and the check of a dependency group.
-- The semver package and `fmt.Sscanf` are parameters; an error keeps its parts and not its text.
pub mod Order
pub mod Validate
pub mod Tests
use falco_operator.Common.{
  ℕ, String, Bool, ◌&&◌, ◌||◌, ◌≡◌, true, Option, none, some, List, [], ◌∷◌, Result, ok, err, ◌>>=◌,
  ◌==◌, string_eq, nat_eq, contains, ltb, leb, if◌then◌else◌, ◌⊎◌,
}

-- `gte` is the precedence of semantic versions, a total preorder. `scan` reads `%d.%d.%d`.
pub record VersionLib : Type 1 where
  pub Version : Type 0
  pub parse_tolerant : String → Option Version
  pub major : Version → ℕ
  pub gte : Version → Version → Bool
  pub scan : String → Option (ℕ × ℕ × ℕ)
  pub gte_trans : (a b c : Version) → gte a b ≡ true → gte b c ≡ true → gte a c ≡ true
  pub gte_total : (a b : Version) → (gte a b ≡ true) ⊎ (gte b a ≡ true)

pub data CompatError : Type 0 where
  semver_error : String → String → CompatError
  invalid_plugin_version : String → CompatError
  in_available in_required : CompatError → CompatError
  in_dependency : String → CompatError → CompatError
  empty_name : CompatError
  duplicate_name : String → CompatError

-- `puller.Dependency`
pub record Dependency : Type 0 where
  pub name : String
  pub version : String

abbrev pub capability_plugin_api_version : String
capability_plugin_api_version = "plugin_api_version"

-- `fmt.Errorf("…: %w", err)`
abbrev pub wrap {ℓ} :
    {A : Type ℓ} → (CompatError → CompatError) → Result CompatError A → Result CompatError A
wrap f (ok a) = ok a
wrap f (err e) = err (f e)

abbrev or_error {ℓ} : {A : Type ℓ} → CompatError → Option A → Result CompatError A
or_error e none = err e
or_error e (some a) = ok a

abbrev at_least : ℕ × ℕ × ℕ → ℕ × ℕ × ℕ → Bool
at_least av rv = av.0 == rv.0 && (ltb rv.1 av.1 || (av.1 == rv.1 && leb rv.2 av.2))

module _ (lib : VersionLib) where
  open lib use {Version, parse_tolerant, major, gte, scan}

  unfoldable pub parse_semver : String → String → Result CompatError Version
  parse_semver value role = or_error (semver_error role value) (parse_tolerant value)

  unfoldable pub semver_at_least : String → String → Result CompatError Bool
  unfolding parse_semver
  semver_at_least available required = do
    a ← parse_semver available "available"
    r ← parse_semver required "required"
    ok (gte a r)

  unfoldable pub semver_major_compatible : String → String → Result CompatError Bool
  unfolding parse_semver
  semver_major_compatible available required = do
    a ← parse_semver available "available"
    r ← parse_semver required "required"
    ok (major a == major r && gte a r)

  unfoldable pub parse_plugin_version : String → Result CompatError (ℕ × ℕ × ℕ)
  parse_plugin_version value = or_error (invalid_plugin_version value) (scan value)

  unfoldable pub plugin_version_compatible : String → String → Result CompatError Bool
  unfolding parse_plugin_version
  plugin_version_compatible available required = do
    av ← wrap in_available (parse_plugin_version available)
    rv ← wrap in_required (parse_plugin_version required)
    ok (at_least av rv)

  -- The loop of `ValidatePluginDependency`; `seen` holds the names met so far.
  unfoldable pub validate_from : List String → List Dependency → Result CompatError (Unit {0})
  unfolding contains
  validate_from seen [] = ok tt
  validate_from seen (c ∷ cs) =
      let rest = validate_from (c.name ∷ seen) cs in
      if c.name == "" then err empty_name else elim (parse_plugin_version c.version) [
        | err e ↦ err (in_dependency c.name e)
        | ok _ ↦ if contains seen c.name then err (duplicate_name c.name) else rest
      ]

  unfoldable pub validate_plugin_dependency : List Dependency → Result CompatError (Unit {0})
  unfolding validate_from
  validate_plugin_dependency candidates = validate_from [] candidates
