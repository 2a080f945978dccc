-- ===== src/TextEditor/Editor.antt =====
-- text_editor/editor.c: the commands of the editor. `Escapes` is the reading of `\n` and of escaped
-- characters in typed text, `Defs` has the commands.
pub mod Escapes
pub mod Defs
pub mod Commands
pub mod RoundTrip
pub mod Search
