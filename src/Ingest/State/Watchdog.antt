-- ===== src/Ingest/State/Watchdog.antt =====
-- Which jobs the watchdog fails.
use z3rno_core.Prelude.{ℕ, Bool, List, filter, elem}
use z3rno_core.Prelude.Sort.{sort}
use z3rno_core.Models.{Uuid}
use z3rno_core.Ingest.State.{IngestJob, is_stale, touched_before}

abbrev pub id_of : IngestJob → ℕ
id_of j = j.id

abbrev pub picked : List Uuid → IngestJob → Bool
picked ids j = elem j.id ids

module _ (secs limit now : ℕ) (jobs : List IngestJob) where
  abbrev ranked : List IngestJob
  ranked = sort touched_before (filter (is_stale secs now) jobs)
