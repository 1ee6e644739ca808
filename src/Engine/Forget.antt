-- ===== src/Engine/Forget.antt =====
-- engine/forget.py.
pub mod Related
pub mod Edges
pub mod Hops
pub mod Delete
pub mod After
pub mod Outcome
pub mod Targets
pub mod Certificate
