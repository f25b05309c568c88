-- ===== src/Storage.antt =====
-- Package storage (storage/): how events and instances are queried and persisted.
pub mod Query
pub mod Cursor
pub mod Fields
pub mod Match
pub mod FieldCases
pub mod Agreement
pub mod Memory
pub mod Writer
pub mod Backend
pub mod Facets
pub mod Histogram
pub mod Distributed
pub mod Metrics
pub mod Mysql
