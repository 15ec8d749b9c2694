-- ===== src/Utils.antt =====
-- src/utils: the functions that the libraries share.
pub mod Strings
pub mod Names
pub mod Sysfs
pub mod Ioctl
mod Tests
