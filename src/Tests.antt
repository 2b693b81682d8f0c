-- ===== src/Tests.antt =====
-- Runs of the models on small inputs, and the theorems applied to them.
mod Check
mod Capture
mod Dynamic
mod Update
mod Text
mod Report
mod Monitor
mod Settings
mod Output
mod Server
mod Session
mod Dpi
