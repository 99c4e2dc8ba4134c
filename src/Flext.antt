-- ===== src/Flext.antt =====
-- The flext layer (a git submodule, whose text is not in the repository) and the choices that C++
-- leaves to the platform, as parameters; a concrete layer; and the vectors of atoms that are sent.
mod Layer
mod Plain
mod Buffer
pub use Layer.*
unfoldable pub use Plain.*
unfoldable pub use Buffer.*
