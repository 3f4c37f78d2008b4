-- ===== src/NodeControllers/RulesfileNode.antt =====
-- controllers/artifact/rulesfile/controller.go
pub mod Compatibility
pub mod Decided
pub mod Failed
pub mod Marked
pub mod Sources
pub mod Reconcile
pub mod Guarded
pub mod Rounds
