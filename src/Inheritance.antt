-- ===== src/Inheritance.antt =====
-- rinja_derive/src/heritage.rs: what a template defines, and the chain of templates that it extends.
pub mod Context
pub mod Chain
pub mod Used
