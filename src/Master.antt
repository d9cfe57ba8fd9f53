-- ===== src/Master.antt =====
-- cyclone-master.py: the loop that serves the controllers.
pub mod State
pub mod Handlers
pub mod Loop
pub mod Assignment
pub mod Invariant
pub mod Timeout
pub mod Shutdown
pub mod Finish
pub mod Process
pub mod Ending
pub mod Exit
pub mod Counting
