-- ===== src/Tests.antt =====
-- Runs of the code on concrete inputs.
mod Fields
mod Wire
mod Conns
mod Names
mod Loop
mod Sessions
mod Shell
mod Mains
mod Tables
mod Logs
