-- ===== src/Examples.antt =====
-- Runs of the definitions, and the theorems at concrete inputs.
mod Monitors
mod Turns
mod Poses
mod Plugins
mod Signals
mod Clients
mod Machines
mod Controls
mod Commands
mod Applications
mod Events
mod Layers
mod Supervision
