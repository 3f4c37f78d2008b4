-- ===== src/ControllerHelper.antt =====
-- internal/pkg/controllerhelper and internal/pkg/common: what the controllers share.
pub mod Finalizers
pub mod Conditions
pub mod Programmed
pub mod NodeObjects
pub mod OwnedNodes
pub mod Tests
