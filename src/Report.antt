-- ===== src/Report.antt =====
-- The statistics that the reports of `src/modules/dpi/report` keep.
pub mod Rtt
pub mod MicroFlow
pub mod Apps
pub mod Session
