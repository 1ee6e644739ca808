-- ===== src/Usage.antt =====
-- usage/counters.py over the table `usage_counters` (migration 029) and the budgets of a tenant.
pub mod Counters
pub mod Totals
pub mod Caps
