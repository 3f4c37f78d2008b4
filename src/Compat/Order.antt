-- ===== src/Compat/Order.antt =====
-- The version comparisons are preorders, so a stricter requirement implies a weaker one.
use falco_operator.Common.{String, ◌≡◌, true, ok, arith, ℕ}
use falco_operator.Compat.{
  VersionLib, parse_plugin_version, plugin_version_compatible, semver_at_least,
  semver_major_compatible,
}

module _ (lib : VersionLib) where
  -- What Falco accepts in place of `b` it accepts in place of all that `b` satisfies: version
  -- compatibility of plugins is transitive.
  pub plugin_version_compatible_trans :
      (a b c : String)
      → plugin_version_compatible lib a b ≡ ok true
      → plugin_version_compatible lib b c ≡ ok true
      → plugin_version_compatible lib a c ≡ ok true
  unfolding plugin_version_compatible
  plugin_version_compatible_trans a b c h k = ground arith

  -- A plugin version that Falco can read satisfies a requirement of itself.
  pub plugin_version_compatible_refl :
      (a : String) {v : ℕ × ℕ × ℕ}
      → parse_plugin_version lib a ≡ ok v
      → plugin_version_compatible lib a a ≡ ok true
  unfolding plugin_version_compatible
  plugin_version_compatible_refl a h = ground arith

  pub semver_at_least_trans :
      (a b c : String)
      → semver_at_least lib a b ≡ ok true
      → semver_at_least lib b c ≡ ok true
      → semver_at_least lib a c ≡ ok true
  unfolding semver_at_least
  semver_at_least_trans a b c h k = grind (arith, lib.gte_trans)

  pub semver_major_compatible_trans :
      (a b c : String)
      → semver_major_compatible lib a b ≡ ok true
      → semver_major_compatible lib b c ≡ ok true
      → semver_major_compatible lib a c ≡ ok true
  unfolding semver_major_compatible
  semver_major_compatible_trans a b c h k = grind (arith, lib.gte_trans)
