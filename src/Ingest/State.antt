-- ===== src/Ingest/State.antt =====
-- ingest/state.py, over the table of migrations 016, 017, 020 and 021. The foreign keys to tenants,
-- datasets and distill_jobs are not checked here. `source_uri_of` reads the key of a memory's metadata.
use text.Mathlib.Text.{◌==◌ as str_eq}
use z3rno_core.Prelude.{
  ℕ, ◌+◌, Bool, true, false, not, ◌&&◌, String, Option, none, some, List, [], ◌∷◌, ◌++◌, map,
  filter, any, elem, take, length, head?, is_none, leb, ltb, if◌then◌else◌, ◌==◌,
}
use z3rno_core.Prelude.Sort.{sort}
use z3rno_core.Models.{Uuid}
use z3rno_core.Result.{Result, ok, raise, unique_violation}
use z3rno_core.Memories.Table.{Memory, same_number}
use z3rno_core.Text.{no_text}
pub mod Watchdog

pub data IngestJobKind : Type 0 where
  text_kind url_kind file_kind : IngestJobKind

pub data IngestJobStatus : Type 0 where
  awaiting_upload queued running completed failed cancelled : IngestJobStatus

pub record IngestJob : Type 0 where
  pub id : Uuid
  pub org_id : Uuid
  pub agent_id : Uuid
  pub dataset_id : Option Uuid
  pub kind : IngestJobKind
  pub source_uri : Option String
  pub content_type : Option String
  pub file_size : Option ℕ
  pub filename : Option String
  pub status : IngestJobStatus
  pub memory_ids : List Uuid
  pub distill_job_id : Option Uuid
  pub memos_written : ℕ
  pub error : Option String
  pub warnings : String
  pub search_batch_id : Option Uuid
  pub started_at : Option ℕ
  pub completed_at : Option ℕ
  pub created_at : ℕ
  pub updated_at : ℕ

-- The arguments of `insert_ingest_job`.
pub record NewJob : Type 0 where
  pub job_id : Uuid
  pub org_id : Uuid
  pub agent_id : Uuid
  pub kind : IngestJobKind
  pub dataset_id : Option Uuid
  pub source_uri : Option String
  pub content_type : Option String
  pub filename : Option String
  pub file_size : Option ℕ
  pub status : IngestJobStatus
  pub search_batch_id : Option Uuid

abbrev new_job : NewJob → ℕ → IngestJob
new_job n now = record {
  id = n.job_id;
  org_id = n.org_id;
  agent_id = n.agent_id;
  dataset_id = n.dataset_id;
  kind = n.kind;
  source_uri = n.source_uri;
  content_type = n.content_type;
  file_size = n.file_size;
  filename = n.filename;
  status = n.status;
  memory_ids = [];
  distill_job_id = none;
  memos_written = 0;
  error = none;
  warnings = "[]";
  search_batch_id = n.search_batch_id;
  started_at = none;
  completed_at = none;
  created_at = now;
  updated_at = now;
}

unfoldable pub insert_ingest_job : NewJob → ℕ → List IngestJob → Result (List IngestJob)
insert_ingest_job n now jobs =
    if any (λ j. j.id == n.job_id) jobs
    then raise unique_violation
    else ok (jobs ++ new_job n now ∷ [])

-- The arguments of `update_ingest_job`; what is `none` is not written.
pub record Patch : Type 0 where
  pub status : Option IngestJobStatus
  pub source_uri : Option String
  pub content_type : Option String
  pub filename : Option String
  pub file_size : Option ℕ
  pub memory_ids : Option (List Uuid)
  pub memos_written : Option ℕ
  pub distill_job_id : Option Uuid
  pub error : Option String
  pub warnings : Option String
  pub started_at_now : Bool
  pub completed_at_now : Bool

abbrev given {ℓ} : {A : Type ℓ} → Option A → A → A
given none old = old
given (some new) old = new

abbrev given_some {ℓ} : {A : Type ℓ} → Option A → Option A → Option A
given_some none old = old
given_some (some new) old = some new

abbrev patched : Patch → ℕ → IngestJob → IngestJob
patched p now j = record j {
  status = given p.status j.status;
  source_uri = given_some p.source_uri j.source_uri;
  content_type = given_some p.content_type j.content_type;
  filename = given_some p.filename j.filename;
  file_size = given_some p.file_size j.file_size;
  memory_ids = given p.memory_ids j.memory_ids;
  memos_written = given p.memos_written j.memos_written;
  distill_job_id = given_some p.distill_job_id j.distill_job_id;
  error = given_some p.error j.error;
  warnings = given p.warnings j.warnings;
  started_at = if p.started_at_now then some now else j.started_at;
  completed_at = if p.completed_at_now then some now else j.completed_at;
  updated_at = now;
}

unfoldable pub update_ingest_job : Uuid → Patch → ℕ → List IngestJob → List IngestJob
update_ingest_job job_id p now jobs = map (λ j. if j.id == job_id then patched p now j else j) jobs

abbrev pub is_running : IngestJobStatus → Bool
is_running awaiting_upload = false
is_running queued = false
is_running running = true
is_running completed = false
is_running failed = false
is_running cancelled = false

-- `status = 'running' AND updated_at < now() - make_interval(secs => :secs)`
abbrev pub is_stale : ℕ → ℕ → IngestJob → Bool
is_stale secs now j = is_running j.status && ltb (j.updated_at + secs) now

-- ORDER BY updated_at
abbrev pub touched_before : IngestJob → IngestJob → Bool
touched_before a b = leb a.updated_at b.updated_at

unfoldable pub stale_ids : ℕ → ℕ → ℕ → List IngestJob → List Uuid
unfolding sort
stale_ids secs limit now jobs =
    map (λ j. j.id) (take limit (sort touched_before (filter (is_stale secs now) jobs)))

abbrev coalesce : Option String → String → Option String
coalesce none t = some t
coalesce (some s) t = some s

abbrev pub timed_out : String → ℕ → IngestJob → IngestJob
timed_out error_msg now j = record j {
  status = failed;
  error = coalesce j.error error_msg;
  updated_at = now;
  completed_at = some now;
}

abbrev pub fail_stale : String → ℕ → List Uuid → List IngestJob → List IngestJob
fail_stale error_msg now ids jobs =
    map (λ j. if elem j.id ids && is_running j.status then timed_out error_msg now j else j) jobs

-- `error_msg` is the text that the function formats from the seconds.
unfoldable pub mark_stale_running_jobs_failed :
    (ℕ → String) → ℕ → ℕ → ℕ → List IngestJob → List IngestJob × List Uuid
unfolding stale_ids
mark_stale_running_jobs_failed error_msg secs limit now jobs =
    by_ids (stale_ids secs limit now jobs)
  where
    by_ids : List Uuid → List IngestJob × List Uuid
    by_ids [] = (jobs, [])
    by_ids (id ∷ ids) = (fail_stale (error_msg secs) now (id ∷ ids) jobs, id ∷ ids)

pub record BatchAggregate : Type 0 where
  pub total : ℕ
  pub queued : ℕ
  pub running : ℕ
  pub completed : ℕ
  pub failed : ℕ
  pub job_ids : List Uuid

abbrev rank : IngestJobStatus → ℕ
rank awaiting_upload = 0
rank queued = 1
rank running = 2
rank completed = 3
rank failed = 4
rank cancelled = 5

abbrev with_status : IngestJobStatus → List IngestJob → ℕ
with_status s jobs = length (filter (λ j. rank j.status == rank s) jobs)

unfoldable pub get_search_batch_aggregate : Uuid → Uuid → List IngestJob → Option BatchAggregate
unfolding sort
get_search_batch_aggregate org batch jobs =
    let rows = filter (λ j. (j.org_id == org) && same_number j.search_batch_id (some batch)) jobs in
    if length rows == 0
    then none
    else some (record {
      total = length rows;
      queued = with_status queued rows;
      running = with_status running rows;
      completed = with_status completed rows;
      failed = with_status failed rows;
      job_ids = map (λ j. j.id) (sort (λ a b. leb a.created_at b.created_at) rows);
    })

abbrev id_of : Option Memory → Option Uuid
id_of none = none
id_of (some m) = some m.id

abbrev says : Option String → String → Bool
says none uri = false
says (some s) uri = str_eq s uri

-- The newest live memory with the address, within the dataset or outside all.
unfoldable pub find_memory_by_source_uri :
    (String → Option String) → Uuid → String → Option Uuid → List Memory → Option Uuid
unfolding sort
find_memory_by_source_uri source_uri_of org uri dataset table =
    if no_text uri
    then none
    else id_of (
        head? (
          sort (λ a b. leb b.created_at a.created_at)
            (filter
              (λ m.
                (m.org_id == org)
                && (is_none m.deleted_at
                    && (is_none m.valid_to
                        && (same_number m.dataset_id dataset
                            && says (source_uri_of m.metadata) uri))))
              table)))
