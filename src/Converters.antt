-- ===== src/Converters.antt =====
-- The packages under models/ that turn a distribution's feed into the records of models.go.
pub mod Common
pub mod Oval
pub mod Debian
pub mod Releases
pub mod Oracle
pub mod Suse
pub mod Redhat
pub mod Ubuntu
pub mod Updates
pub mod Alpine
