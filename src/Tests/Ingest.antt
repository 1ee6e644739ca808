-- ===== src/Tests/Ingest.antt =====
-- Three jobs, two of them stuck.
use z3rno_core.Prelude.{ℕ, ◌≡◌, refl, none, some, String, List, [], ◌∷◌}
use z3rno_core.Models.{Uuid}
use z3rno_core.Ingest.State.{
  IngestJob, IngestJobKind, IngestJobStatus, mark_stale_running_jobs_failed,
  get_search_batch_aggregate,
}

abbrev job : Uuid → IngestJobStatus → ℕ → IngestJob
job id status touched = record {
  id = id;
  org_id = 7;
  agent_id = 1;
  dataset_id = none;
  kind = IngestJobKind.text_kind;
  source_uri = none;
  content_type = none;
  file_size = none;
  filename = none;
  status = status;
  memory_ids = [];
  distill_job_id = none;
  memos_written = 0;
  error = none;
  warnings = "[]";
  search_batch_id = some 3;
  started_at = none;
  completed_at = none;
  created_at = touched;
  updated_at = touched;
}

abbrev jobs : List IngestJob
jobs =
    job 1 IngestJobStatus.running 20
    ∷ job 2 IngestJobStatus.queued 5
    ∷ job 3 IngestJobStatus.running 10
    ∷ []

abbrev message : ℕ → String
message secs = "stale"

oldest : (mark_stale_running_jobs_failed message 60 1 100 jobs).1 ≡ 3 ∷ []
unfolding mark_stale_running_jobs_failed
oldest = refl

aggregated :
    get_search_batch_aggregate 7 3 jobs
    ≡ some (record {
      total = 3;
      queued = 1;
      running = 2;
      completed = 0;
      failed = 0;
      job_ids = 2 ∷ 3 ∷ 1 ∷ [];
    })
unfolding get_search_batch_aggregate
aggregated = refl
