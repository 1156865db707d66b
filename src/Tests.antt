-- ===== src/Tests.antt =====
-- Runs of the model on concrete inputs, by component.
pub mod Data
pub mod Lists
pub mod Drops
pub mod Calls
pub mod Views
pub mod Loading
pub mod Helpers
pub mod Plans
pub mod Sessions
pub mod Saves
pub mod Dialogs
pub mod Boards
pub mod Panels
pub mod Rows
pub mod Accounts
pub mod Typing
pub mod Shell
