-- ===== src/Tests.antt =====
-- The theorems at concrete inputs: rinja/src/html.rs, rinja_parser/src/node.rs, and
-- rinja_derive/src/integration.rs and src/generator.
mod Rendering
mod Emitting
mod Matching
mod Calling
mod Helping
mod Configuring
mod Inheriting
mod Filtering
mod Scoping
mod Visiting
mod Lets
