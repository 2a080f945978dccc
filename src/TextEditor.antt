-- ===== src/TextEditor.antt =====
-- text_editor: the document (document.c) over the vector of vector/vector.c, and the commands of the
-- editor (editor.c) over the document.
pub mod Strings
pub mod Document
pub mod Editor
mod Examples
