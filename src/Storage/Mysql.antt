-- ===== src/Storage/Mysql.antt =====
-- Package mysql (storage/mysql/): the backend that keeps events in MariaDB or MySQL.
pub mod Where
pub mod Tags
pub mod Read
pub mod Histogram
pub mod Lists
pub mod Write
pub mod Maintain
