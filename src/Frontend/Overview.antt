-- ===== src/Frontend/Overview.antt =====
-- App.vue: the overview of the queues and the devices.
use testbench.Common.{
  ℕ, ◌≡◌, refl, Bool, ◌||◌, Option, none, some, List, [], ◌∷◌, String, map, ap, any, is_given,
  is_truthy, get_or_else,
}
use testbench.Management.Queues.{
  JobJson, FormattedJob, format_job, Device, get_adb_device_infos, format_job-is_failed,
}
use testbench.Management.Pages.{Query, all_job_types, get_pagination, pagination_of}
use testbench.Management.Listing.{Queue, QueueInfos, get_queue_infos, present_jobs}
use testbench.Management.Info.{RedisInfos, RedisInfo, Info, Sources, info}
use testbench.Frontend.Modal.{Modal, show_modal}

-- A row of a list of jobs; the rows of the analyzer have no progress.
pub record JobRow : Type 0 where
  pub id : String
  pub name : String
  pub timestamp : ℕ
  pub progress : Option String
  pub data_text : String
  pub return_value : String
  pub failed : Bool

pub record StatusRow : Type 0 where
  pub id : String
  pub timestamp : ℕ
  pub data_text : String

abbrev pub Counts : Type 0
Counts = String → Option ℕ

-- The variables of the component, which are undefined at first.
pub record Overview (N : Type 0) : Type 0 where
  pub ui_test_queue_infos : Option Counts
  pub ui_test_jobs : Option (List JobRow)
  pub status_jobs : Option (List StatusRow)
  pub analyzer_queue_infos : Option Counts
  pub analyzer_jobs : Option (List JobRow)
  pub redis_infos : Option (Option (RedisInfos N))
  pub device_infos : Option (List Device)

abbrev pub new_overview : {N : Type 0} → Overview N
new_overview = record {
  ui_test_queue_infos = none;
  ui_test_jobs = none;
  status_jobs = none;
  analyzer_queue_infos = none;
  analyzer_jobs = none;
  redis_infos = none;
  device_infos = none;
}

-- The answer as it is read, each part of which may be missing.
pub record Response (N : Type 0) : Type 0 where
  pub ui_tests_jobs_queue_info : Option QueueInfos
  pub analyzer_jobs_queue_info : Option QueueInfos
  pub status_jobs_queue_info : Option QueueInfos
  pub redis_infos : Option (RedisInfos N)
  pub devices : Option (List Device)

-- What the service's answer is read as.
abbrev pub response_of : {N : Type 0} → Info N → Response N
response_of i = record {
  ui_tests_jobs_queue_info = some i.ui_tests_jobs_queue_info;
  analyzer_jobs_queue_info = some i.analyzer_jobs_queue_info;
  status_jobs_queue_info = some i.status_jobs_queue_info;
  redis_infos = some i.redis_infos;
  devices = some i.devices;
}

-- `info?.counts || {}`
abbrev counts_of : Option QueueInfos → Counts
counts_of none = λ s. none
counts_of (some i) = i.counts

-- `info?.jobs || []`
abbrev jobs_of : Option QueueInfos → List FormattedJob
jobs_of none = []
jobs_of (some i) = i.jobs

abbrev pub ui_test_row : FormattedJob → JobRow
ui_test_row j = record {
  id = j.id;
  name = j.name;
  timestamp = j.timestamp;
  progress = some j.progress;
  data_text = j.data_text;
  return_value = j.return_value;
  failed = j.is_failed;
}

abbrev pub analyzer_row : FormattedJob → JobRow
analyzer_row j = record {
  id = j.id;
  name = j.name;
  timestamp = j.timestamp;
  progress = none;
  data_text = j.data_text;
  return_value = j.return_value;
  failed = j.is_failed;
}

abbrev pub status_row : FormattedJob → StatusRow
status_row j = record { id = j.id; timestamp = j.timestamp; data_text = j.data_text }

-- The assignments of `refreshStats`, for the answer that was read.
unfoldable pub show_response : {N : Type 0} → Response N → Overview N
show_response res = record {
  ui_test_queue_infos = some (counts_of res.ui_tests_jobs_queue_info);
  analyzer_queue_infos = some (counts_of res.analyzer_jobs_queue_info);
  ui_test_jobs = some (map ui_test_row (jobs_of res.ui_tests_jobs_queue_info));
  analyzer_jobs = some (map analyzer_row (jobs_of res.analyzer_jobs_queue_info));
  status_jobs = some (map status_row (jobs_of res.status_jobs_queue_info));
  redis_infos = some res.redis_infos;
  device_infos = some (get_or_else res.devices []);
}

-- `refreshStats`; without an answer it throws at the start and nothing changes.
unfoldable pub refresh_stats : {N : Type 0} → Option (Response N) → Overview N → Overview N
unfolding show_response
refresh_stats none o = o
refresh_stats (some res) o = show_response res

abbrev udid_of : Device → String
udid_of d = d.udid

-- `showNewJobModal`
unfoldable pub show_new_job_modal : {N : Type 0} → Overview N → Bool → Modal → Modal
show_new_job_modal o parses m = show_modal parses (map udid_of (get_or_else o.device_infos [])) m

-- The query of the page, which names nothing.
abbrev pub no_query : Query
no_query = record { jobs_per_page = none; page = none; status = none }

abbrev read : {N : Type 0} → Option (Info N) → Option (Response N)
read none = none
read (some i) = some (response_of i)

-- `refreshStats` with the service's answer.
unfoldable pub refreshed :
    {N : Type 0} → (String → N) → (N → Bool) → Sources → Overview N → Overview N
refreshed number is_number s o = refresh_stats (read (info number is_number s no_query)) o

-- A row of the page, read off the job itself: it has failed if a reason is given or a line of its
-- trace is not empty.
abbrev pub row_of : Option String → JobJson → JobRow
row_of progress j = record {
  id = j.id;
  name = j.name;
  timestamp = j.timestamp;
  progress = progress;
  data_text = j.data_text;
  return_value = j.returnvalue;
  failed = is_given j.failed_reason || any is_truthy (get_or_else j.stacktrace []);
}

abbrev pub status_of : JobJson → StatusRow
status_of j = record { id = j.id; timestamp = j.timestamp; data_text = j.data_text }

set_failed_of : (j : JobJson) → (progress : Option String) → Bool → JobRow
set_failed_of j progress b = record (row_of progress j) { failed = b }

ui_test_row-format_job : (j : JobJson) → ui_test_row (format_job j) ≡ row_of (some j.progress) j
unfolding format_job set_failed_of
ui_test_row-format_job j =
    ap (set_failed_of j (some j.progress)) (format_job-is_failed j j.stacktrace refl)

analyzer_row-format_job : (j : JobJson) → analyzer_row (format_job j) ≡ row_of none j
unfolding format_job set_failed_of
analyzer_row-format_job j = ap (set_failed_of j none) (format_job-is_failed j j.stacktrace refl)

status_row-format_job : (j : JobJson) → status_row (format_job j) ≡ status_of j
unfolding format_job
status_row-format_job j = refl

map-map :
    {A B C : Type 0} (f : A → B) (g : B → C) (k : A → C)
    → ((a : A) → g (f a) ≡ k a)
    → (xs : List A) → map g (map f xs) ≡ map k xs
map-map f g k same [] = refl
map-map f g k same (x ∷ xs) = rw (same x, map-map f g k same xs) refl

-- The jobs that a queue lists for the query of the page.
abbrev pub listed : Queue → List JobJson
listed queue = present_jobs (queue.get_jobs all_job_types 0 9)

get_queue_infos-listed :
    (queue : Queue) → (get_queue_infos queue no_query).jobs ≡ map format_job (listed queue)
unfolding get_queue_infos pagination_of get_pagination
get_queue_infos-listed queue = refl

-- Where redis answers, a refresh shows the jobs that each queue lists as its latest ones and that are
-- still there, in that order, a UI-test or analyzer job as failed exactly if it has a reason or a line
-- of a trace that is not empty; the counts of the two queues that run jobs; and the devices.
pub refreshed-rows :
    {N : Type 0} (number : String → N) (is_number : N → Bool) (s : Sources) (r : RedisInfo)
    (o : Overview N)
    → s.redis ≡ some r
    → let shown = refreshed number is_number s o in
      (shown.ui_test_jobs
        ≡ some (map (λ j. row_of (some j.progress) j) (listed s.ui_tests_jobs_queue)))
      × (shown.analyzer_jobs ≡ some (map (row_of none) (listed s.analyzer_jobs_queue)))
      × (shown.status_jobs ≡ some (map status_of (listed s.status_jobs_queue)))
      × (shown.ui_test_queue_infos ≡ some s.ui_tests_jobs_queue.counts)
      × (shown.analyzer_queue_infos ≡ some s.analyzer_jobs_queue.counts)
      × (shown.device_infos ≡ some (get_adb_device_infos s.headless_emulator_available s.adb))
unfolding refreshed info refresh_stats show_response get_queue_infos pagination_of get_pagination
refreshed-rows number is_number s r o at = rw at (
  ap some (map-map format_job ui_test_row _ ui_test_row-format_job (listed s.ui_tests_jobs_queue)),
  ap some
      (map-map format_job analyzer_row _ analyzer_row-format_job (listed s.analyzer_jobs_queue)),
  ap some (map-map format_job status_row _ status_row-format_job (listed s.status_jobs_queue)),
  refl,
  refl,
  refl,
)
