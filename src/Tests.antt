-- ===== src/Tests.antt =====
-- Runs of the model on concrete inputs, and each theorem with a hypothesis at an input that meets
-- it.
pub mod Data
mod Client
mod Events
mod Pages
mod Session
mod Screens
mod App
mod Headings
