-- ===== src/Vector.antt =====
-- vector/vector.c: a growable array of handles with user callbacks. `Cells` is the heap block that
-- holds the handles, `Capacity` the doubling loop, `Defs` the struct and its operations; the other
-- children prove what the operations do. Clients (the document of text_editor) take the operations
-- from here.
pub mod Cells
pub mod Capacity
pub mod Defs
pub mod Blocks
pub mod Contents
pub mod Growth
pub mod Removal
pub mod Refinement
pub mod Sstring
mod Examples
