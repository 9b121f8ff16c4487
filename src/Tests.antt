-- ===== src/Tests.antt =====
-- Concrete inputs for the theorems about src/resp.cpp, src/commands.cpp,
-- src/persistence.cpp and src/server.cpp.
mod Wire
mod Keys
mod Records
mod Clients
mod Restart
mod Rounds
mod Echo
