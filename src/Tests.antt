-- ===== src/Tests.antt =====
-- Runs of the model on a small database, and the theorems at concrete inputs. The platform is the
-- one of Platform/Fixed; ids are derived with a toy encoding.
pub mod Audit
pub mod Data
pub mod Examples
pub mod Imports
pub mod Histories
pub mod Starts
pub mod Web
