-- ===== src/Examples.antt =====
-- Runs of the model at concrete inputs, and an instance of what it takes as a parameter.
pub mod World
pub mod Texts
pub mod Tables
pub mod Logs
pub mod Requests
pub mod Access
pub mod Console
pub mod Startup
pub mod Forms
