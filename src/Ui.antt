-- ===== src/Ui.antt =====
-- internal/ui: the state behind the terminal UI, in the order in which its parts use one another.
pub mod Spinner
pub mod Progress
pub mod Prompt
pub mod Keys
pub mod Messages
pub mod App
pub mod Update
pub mod Run
pub mod Coherent
