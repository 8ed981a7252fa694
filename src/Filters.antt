-- ===== src/Filters.antt =====
-- rinja/src/filters: the filters that stand between a value and the destination of the output.
pub mod Escape
pub mod Join
pub mod Json
pub mod Pluralize
pub mod Truncate
pub mod Trim
pub mod Indent
