-- ===== src/Prometheus.antt =====
-- prometheus/lustre_file_creation_check.py
pub mod CreationCheck
pub mod Metrics
pub mod Render
