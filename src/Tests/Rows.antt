-- ===== src/Tests/Rows.antt =====
-- The rows that the runs below share.
use z3rno_core.Prelude.{false, none, some, List, [], ◌∷◌}
use z3rno_core.Models.{related_to, Uuid, semantic}
use z3rno_core.Memories.Table.{Memory}
use z3rno_core.Audit.Ordered.{empty}
use z3rno_core.Engine.State.{State, Context, Relationship}

-- A live memory of organisation 7 and agent 1.
abbrev pub memory : Uuid → Memory
memory id = record {
  id = id;
  org_id = 7;
  agent_id = 1;
  user_id = none;
  memory_type = semantic;
  content = "likes tea";
  summary = none;
  metadata = "{}";
  importance_score = 500000;
  recall_count = 0;
  last_recalled_at = none;
  valid_from = 1;
  valid_to = none;
  pinned = false;
  ttl_expires_at = some 4;
  deleted_at = none;
  quarantined = false;
  anomaly_score = 0;
  created_at = 1;
  updated_at = 1;
  dataset_id = none;
  conversation_id = none;
  turn_index = none;
  turn_role = none;
  embedding = none;
  embedding_model = none;
  memo_type = none;
  ontology_uri = none;
  distill_provenance = none;
}

abbrev pub link : Uuid → Uuid → Uuid → Relationship
link id a b = record {
  id = id;
  org_id = 7;
  source_memory_id = a;
  target_memory_id = b;
  relationship_type = related_to;
  weight = 1;
  metadata = "{}";
}

-- 1 is joined to 2, and 3 to 2; 4 stands alone.
abbrev pub joined : List Relationship
joined = link 100 1 2 ∷ link 101 3 2 ∷ []

abbrev pub four : State
four = record {
  memories = memory 1 ∷ memory 2 ∷ memory 3 ∷ memory 4 ∷ [];
  relationships = joined;
  certificates = [];
  versions = [];
  audit = empty;
}

abbrev pub caller : Context
caller = record {
  agent_id = some 1;
  user_id = none;
  api_key_id = none;
  ip_address = none;
  user_agent = none;
  request_id = none;
}
