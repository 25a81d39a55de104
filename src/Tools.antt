-- ===== src/Tools.antt =====
-- The programs of uniconn-tests/tools_py that serve echoes over the library.
pub mod Echo
