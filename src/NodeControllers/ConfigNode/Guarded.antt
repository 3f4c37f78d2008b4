-- ===== src/NodeControllers/ConfigNode/Guarded.antt =====
-- What a round of the Config controller guarantees.
use falco_operator.Common.{false, ◌≡◌, arith, Result-cases, inl, inr, string_eq}
use falco_operator.NodeControllers.{Reconciler, Local, ConfigObject}
use falco_operator.NodeControllers.Sources.{D, enforce_reference_resolution, config_map_reference}
use falco_operator.NodeControllers.Sources.Kept.{Untouched, references-Untouched}
use falco_operator.NodeControllers.ConfigNode.{program, is_current}

module _ (r : Reconciler) where
  -- Until the specification is processed, a round leaves the node as it is.
  pub config_program-waits :
      (server : r.server.State) (config : ConfigObject) (s : Local (D r))
      → is_current config ≡ false
      → Untouched r s (program r server config s).1
  unfolding program
  config_program-waits server config s h =
      let refs = config_map_reference r server config.meta config.config_map_ref in
      let u = references-Untouched r config.meta.generation refs s in
      elim (Result-cases (enforce_reference_resolution r config.meta.generation refs s).0) [
        | inr (x, q) ↦ ground arith
        | inl (x, q) ↦ ground arith
      ]
