-- ===== src/Resp.antt =====
-- src/resp.hpp and src/resp.cpp: values, `serialize` and `parse`.
pub mod Value
pub mod Serialize
pub mod Wire
mod Parser
pub mod Parse
pub mod Entry
