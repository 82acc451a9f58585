-- ===== src/Tests.antt =====
-- Runs of the definitions on concrete data, and the theorems at concrete inputs.
mod Data
mod Codec
mod Users
mod Groups
mod Reached
mod Server
mod Talk
mod Client
mod Names
mod Net
mod Network
mod Menus
mod Chat
