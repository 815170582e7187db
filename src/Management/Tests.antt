-- ===== src/Management/Tests.antt =====
-- Requests, queues and pages at concrete inputs.
use testbench.Common.{
  ◌<◌, ◌≡◌, refl, true, Option, none, some, [], ◌∷◌, String, ◌+◌, ◌-◌, ◌/◌, ◌≤◌, arith, ℕ,
}
use testbench.Management.Intake.{Body, array, create_measurement_job, Ending, create-Ending}
use testbench.Management.Api.{StatusJob}
use testbench.Common.{List, map, take}
use testbench.Management.Listing.{
  Queue, Holds, drop, get_queue_infos, page_query, pages_from, present_jobs, pages-whole,
}
use testbench.Management.Pages.{pagination_of, get_pagination, on_its_page}
use testbench.Management.Queues.{JobJson, format_job}

abbrev pub request : Body
request = record {
  id = some "u1";
  name = some "n";
  device = some " pixel ";
  app_path = some "a.apk";
  test_image_path = some "us/0";
  result_folder_path = some "results";
  config = some (array ("A=1" ∷ "" ∷ []));
}

abbrev bare : Body
bare = record request { config = none }

abbrev counts : String → Option ℕ
counts s = some 25

abbrev pub done : StatusJob
done = record { id = "u1"; status = "COMPLETED" }

abbrev pub started : StatusJob
started = record { id = "u2"; status = "STARTED" }

abbrev failed_job : JobJson
failed_job = record {
  id = "1";
  timestamp = 0;
  processed_on = none;
  processed_by = none;
  finished_on = none;
  progress = "0";
  attempts_made = 1;
  delay = 0;
  failed_reason = none;
  stacktrace = some ("a" ∷ "" ∷ "b" ∷ []);
  opts = "{}";
  data_text = "{}";
  name = "n";
  returnvalue = "";
}

create-Ending_example : Ending [] bare (create_measurement_job true [] (some bare))
create-Ending_example = create-Ending true [] bare

on_its_page_example :
    let p = get_pagination ("failed" ∷ []) counts (20 / 10 + 1) 10 in
    (p.start ≤ 20)
    × (20 ≤ p.end)
    × (p.page_count ≡ some ((25 + 10 - 1) / 10))
    × (20 / 10 + 1 ≤ (25 + 10 - 1) / 10)
    × ((page : ℕ)
        → 0 < page
        → (get_pagination ("failed" ∷ []) counts page 10).start ≤ 20
        → 20 ≤ (get_pagination ("failed" ∷ []) counts page 10).end
        → page ≡ 20 / 10 + 1)
on_its_page_example = on_its_page "failed" counts 25 10 20 refl (omega arith) (omega arith)

-- A queue of three waiting jobs, of which the second is gone.
abbrev waiting : List (Option JobJson)
waiting = some failed_job ∷ none ∷ some (record failed_job { id = "2" }) ∷ []

abbrev queue : Queue
queue = record {
  name = "q";
  counts = λ s. some 3;
  get_jobs = λ s start end. take (end + 1 - start) (drop start waiting);
}

holds : Holds queue "waiting" waiting
holds = record { count_lem = refl; range_lem = λ start end. refl }

two_pages : (get_queue_infos queue (page_query "waiting" 2 1)).pagination.page_count ≡ some 2
unfolding get_queue_infos pagination_of get_pagination
two_pages = refl

pages-whole_example : pages_from queue "waiting" 2 0 2 ≡ map format_job (present_jobs waiting)
pages-whole_example =
    pages-whole queue "waiting" waiting holds 2 (omega arith) refl refl 2 two_pages
