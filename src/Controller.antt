-- ===== src/Controller.antt =====
-- cyclone-controller.py and worker.py: the controller and its workers.
pub mod Worker
pub mod Loop
pub mod WorkerRuns
pub mod Retry
