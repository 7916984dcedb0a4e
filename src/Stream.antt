-- ===== src/Stream.antt =====
-- runtime/caller.hpp and operators: the links between the streams of a graph, and what its operators do
-- with a message.
pub mod Caller
pub mod Branches
pub mod SubStream
pub mod Join
