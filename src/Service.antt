-- ===== src/Service.antt =====
-- runtime/serviceapp.hpp: a service, its registered components and their lifecycle.
pub mod Lifecycle
pub mod App
pub mod Runtime
