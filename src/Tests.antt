-- ===== src/Tests.antt =====
-- Runs of the models on concrete inputs.
pub mod Table
pub mod Rule
pub mod Parser
pub mod Options
pub mod Classify
pub mod Hash
pub mod Device
pub mod Features
pub mod Link
pub mod Settings
pub mod Queues
