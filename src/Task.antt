-- ===== src/Task.antt =====
-- Task objects, their classes, and how they are made from text (task/).
pub mod Object
pub mod Factory
pub mod Classes
pub mod MigrateTransfer
pub mod Io
pub mod Check
pub mod Xml
