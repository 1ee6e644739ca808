-- ===== src/Engine/Store/Accepted.antt =====
-- When `store` returns.
use z3rno_core.Prelude.{List}
use z3rno_core.Engine.State.{State}
