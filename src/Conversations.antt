-- ===== src/Conversations.antt =====
-- conversations/helpers.py over the tables `conversations` (migration 028) and `memories`.
pub mod Helpers
pub mod Turns
pub mod Summary
pub mod Steps
pub mod Growth
