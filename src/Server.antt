-- ===== src/Server.antt =====
-- src/server.cpp: what a readable client connection does. The results of `recv` and `send` are given
-- as lists, in the order of the calls.
pub mod Receive
pub mod Serve
pub mod Send
pub mod Readable
pub mod Loop
pub mod Start
pub mod Setup
pub mod Events
pub mod Rounds
