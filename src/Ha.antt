-- ===== src/Ha.antt =====
-- The decision making of high availability (py-utils/src/utils/ha/dm): the rules that turn an alert
-- into an action, the decisions that are kept, and the monitor that reports on resources.
pub mod Names
pub mod Rules
pub mod Alerts
pub mod Decisions
pub mod Maker
pub mod Monitor
pub mod Validation
