-- ===== src/UpdateHelper.antt =====
-- The helper that installs an update, src/MQTTBridge/updatehelper.py.
pub mod State
pub mod Receiver
pub mod RelayUrl
pub mod Choose
pub mod Waiting
pub mod Ending
pub mod Rollback
pub mod Forward
pub mod Run
pub mod Logic
pub mod Does
pub mod After
pub mod Ends
