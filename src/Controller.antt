-- ===== src/Controller.antt =====
-- The reconcilers of the controller.
pub mod Roles
pub mod Reflect
pub mod Available
pub mod Assembled
pub mod Definition
