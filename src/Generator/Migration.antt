-- ===== src/Generator/Migration.antt =====
-- task/generator/lustre_ost_migration_task_generator.py
pub mod State
pub mod Ost
pub mod Tid
pub mod Files
pub mod Dispatch
pub mod Booking
pub mod Open
pub mod Opening
pub mod Collected
pub mod Steady
pub mod Periodic
pub mod Loading
pub mod Life
pub mod Reached
