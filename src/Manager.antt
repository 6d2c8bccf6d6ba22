-- ===== src/Manager.antt =====
-- cmd/main.go and the functions that hand the reconcilers and the webhooks to the manager.
pub mod Options
pub mod Setup
pub mod Start
pub mod Servers
pub mod Order
pub mod Histories
pub mod Answers
pub mod Updates
pub mod Subjects
pub mod Load
