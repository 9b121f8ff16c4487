-- ===== src/Commands.antt =====
-- `execute_command` of src/commands.cpp: the commands, their specifications, and the choice among them.
pub mod Base
pub mod General
pub mod Strings
pub mod Lists
pub mod Hashes
pub mod Sets
pub mod Spec
pub mod Execute
