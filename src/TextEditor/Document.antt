-- ===== src/TextEditor/Document.antt =====
-- text_editor/document.c: a document is a vector of lines, counted from 1. `Lines` proves what the
-- operations do to the lines, and `File` is the file that a document is written to and read from.
pub mod Defs
pub mod Lines
pub mod File
