-- ===== src/Engine/Store/Stored.antt =====
-- What `store` writes, and reading it back.
use z3rno_core.Audit.Tables.{Event}
use z3rno_core.Prelude.{String, some, List}
use z3rno_core.Models.{Uuid, AuditOperation}
use z3rno_core.Engine.State.{State, Context}
use z3rno_core.Engine.Store.{StoreInput, store}

abbrev pub store_event : (StoreInput → String) → Uuid → Uuid → StoreInput → Context → Event
store_event details id org i c = record {
  org_id = org;
  agent_id = some i.agent_id;
  user_id = i.user_id;
  operation = AuditOperation.store;
  memory_id = some id;
  memory_type = some i.memory_type;
  details = details i;
  api_key_id = c.api_key_id;
  ip_address = c.ip_address;
  user_agent = c.user_agent;
  request_id = c.request_id;
}
