-- ===== src/Application.antt =====
-- modules/application: the life of an application (App, Layer, ServiceBase, PeriodicApp), driven by
-- its state machine, its commands and its monitoring thread.
pub mod States
pub mod Rounds
pub mod Activities
pub mod Monitor
pub mod Lifecycle
pub mod Graph
pub mod Arrows
pub mod Shutdown
pub mod Stopping
pub mod Asked
pub mod Ends
pub mod Inherited
pub mod Stale
