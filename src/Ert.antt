-- ===== src/Ert.antt =====
-- client/wisp-ert: the WISP extended runtime.
pub mod Epc
pub mod Fs
pub mod Runtime
pub mod Setup
pub mod Enter
pub mod Context
