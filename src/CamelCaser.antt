-- ===== src/CamelCaser.antt =====
-- extreme_edge_cases/camelCaser.c: sentences, which end with a punctuation mark, in camel case.
pub mod Defs
pub mod Buffers
pub mod OnePass
pub mod Exact
mod Examples
