-- ===== src/Ctrl.antt =====
-- The control components that master, controllers and generators share (ctrl/).
pub mod SharedQueue
pub mod TaskStatus
pub mod PidControl
