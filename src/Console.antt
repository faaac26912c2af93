-- ===== src/Console.antt =====
-- console/internal/view: how the console reads an App and what it shows of it.
pub mod Value
pub mod Human
pub mod Model
pub mod From
pub mod Volumes
pub mod Health
pub mod Totals
pub mod Labels
pub mod Timing
pub mod View
pub mod Contract
