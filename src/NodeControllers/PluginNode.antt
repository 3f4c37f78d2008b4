-- ===== src/NodeControllers/PluginNode.antt =====
-- controllers/artifact/plugin/controller.go
pub mod Compatibility
pub mod Files
pub mod Reconcile
pub mod Guarded
