-- ===== src/Modules.antt =====
-- src/ccmodules: the handlers of the directives of a cloud-config document.
pub mod Groups
pub mod Commands
pub mod Network
pub mod Envar
pub mod Keys
pub mod Users
pub mod WriteFiles
