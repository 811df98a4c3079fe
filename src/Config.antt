-- ===== src/Config.antt =====
-- config: the custom tools of the config file, and the instances of the multi-instance mode.
pub mod Scan
pub mod CustomTools
pub mod Instances
