-- ===== src/Tests/AuditQuery.antt =====
-- Pages of a log of five rows.
use z3rno_core.Prelude.{
  ◌≡◌, refl, true, none, some, ℕ, List, [], ◌∷◌, ◌&&◌, ◌<◌, length, map, filter, ltb, arith,
}
use z3rno_core.Prelude.Sort.{sort}
use z3rno_core.Models.{Uuid, AuditOperation}
use z3rno_core.Audit.Tables.{LogRow}
use z3rno_core.Audit.Query.{
  Filters, meets, row_to_entry, by_id_desc, keyset_page, get_agent_activity_summary,
}
use z3rno_core.Audit.Query.Walk.{walk, walk-matching}

abbrev row : ℕ → Uuid → AuditOperation → LogRow
row id agent operation = record {
  id = id;
  event = record {
    org_id = 7;
    agent_id = some agent;
    user_id = none;
    operation = operation;
    memory_id = none;
    memory_type = none;
    details = "{}";
    api_key_id = none;
    ip_address = none;
    user_agent = none;
    request_id = none;
  };
  prev_hash = none;
  row_hash = [];
  created_at = id;
  updated_at = id;
}

abbrev log : List LogRow
log =
    row 1 1 AuditOperation.store
    ∷ row 2 2 AuditOperation.store
    ∷ row 3 1 AuditOperation.recall
    ∷ row 4 1 AuditOperation.store
    ∷ row 5 1 AuditOperation.forget
    ∷ []

abbrev of_agent : Filters
of_agent = record {
  agent_id = some 1;
  user_id = none;
  operation = none;
  memory_id = none;
  memory_type = none;
  time_range = none;
}

first_page : keyset_page 7 of_agent 5 (some 2) log ≡ record {
  entries =
      row_to_entry (row 4 1 AuditOperation.store)
      ∷ row_to_entry (row 3 1 AuditOperation.recall)
      ∷ [];
  total = none;
  page = 0;
  page_size = 2;
  has_next = true;
  next_cursor = some 3;
}
unfolding keyset_page
first_page = refl

summary : (get_agent_activity_summary 7 1 none log).total ≡ 4
unfolding get_agent_activity_summary
summary = refl

few : length (filter (meets 7 of_agent) log) < 6
unfolding meets
few = omega arith

walk-matching_example :
    walk 7 of_agent (some 2) 6 5 log
    ≡ some (map row_to_entry (sort by_id_desc (filter (λ r. meets 7 of_agent r && ltb r.id 5) log)))
walk-matching_example =
    walk-matching 7 of_agent (some 2) log 5 6 (refl, (refl, (refl, (refl, (refl, tt))))) few
