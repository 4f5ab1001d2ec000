-- ===== src/Dialects.antt =====
-- core/dialect-handle.ts: the handles of dialects, their live syntax trees and their lazy directives.
pub mod Handle
pub mod Steps
pub mod Calls
pub mod Coalesced
pub mod Kept
pub mod Reach
pub mod Written
pub mod Poisoned
pub mod Compose
