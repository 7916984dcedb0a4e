-- ===== src/Config.antt =====
-- runtime/config: the indices over a configuration, and the loader that replaces it.
pub mod Runtime
pub mod Loader
