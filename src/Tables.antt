-- ===== src/Tables.antt =====
-- The classes that read and write the tables of the database.
pub mod IpInfo
pub mod EmailInfo
pub mod DownloadFile
pub mod Bind
pub mod Lifetime
