-- ===== src/Generator.antt =====
-- task/generator/: the processes that make tasks for the master and read the results.
pub mod Migration
pub mod Filling
pub mod Monitoring
pub mod Benchmark
pub mod Base
