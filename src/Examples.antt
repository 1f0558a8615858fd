-- ===== src/Examples.antt =====
-- Concrete instances of the parameters, and the theorems applied to concrete inputs.
pub mod Instances
pub mod Webhook
pub mod Client
pub mod Broker
pub mod SubManager
pub mod Controller
pub mod Routing
pub mod Copies
pub mod Dies
pub mod DieCalls
pub mod Assembled
pub mod Main
pub mod Lifecycle
