-- ===== src/Management/Queues.antt =====
-- `formatJob` of queueInfos.ts, and adbInfos.ts and redisInfos.ts.
use testbench.Common.{
  ◌≡◌, refl, Bool, true, false, ◌||◌, Option, none, some, List, [], ◌∷◌, String, is_truthy,
  is_given, get_or_else, filter, length, ltb, any, ap, ◌+◌, arith, ℕ,
}
use mathlib.Core.List.{reverse, reverse_aux, reverse-reverse}

-- `job.toJSON()` of bullmq: what the page shows of it. `opts`, `data`, `progress` and the return
-- value are passed on as they are, as texts.
pub record JobJson : Type 0 where
  pub id : String
  pub timestamp : ℕ
  pub processed_on : Option ℕ
  pub processed_by : Option String
  pub finished_on : Option ℕ
  pub progress : String
  pub attempts_made : ℕ
  pub delay : ℕ
  pub failed_reason : Option String
  pub stacktrace : Option (List String)
  pub opts : String
  pub data_text : String
  pub name : String
  pub returnvalue : String

pub record FormattedJob : Type 0 where
  pub id : String
  pub timestamp : ℕ
  pub processed_on : Option ℕ
  pub processed_by : Option String
  pub finished_on : Option ℕ
  pub progress : String
  pub attempts : ℕ
  pub delay : ℕ
  pub failed_reason : Option String
  pub stacktrace : List String
  pub opts : String
  pub data_text : String
  pub name : String
  pub return_value : String
  pub is_failed : Bool

abbrev kept_trace : Option (List String) → List String
kept_trace none = []
kept_trace (some t) = filter is_truthy t

unfoldable pub format_job : JobJson → FormattedJob
format_job j =
    let stacktrace = reverse (kept_trace j.stacktrace) in
    record {
      id = j.id;
      timestamp = j.timestamp;
      processed_on = j.processed_on;
      processed_by = j.processed_by;
      finished_on = j.finished_on;
      progress = j.progress;
      attempts = j.attempts_made;
      delay = j.delay;
      failed_reason = j.failed_reason;
      stacktrace = stacktrace;
      opts = j.opts;
      data_text = j.data_text;
      name = j.name;
      return_value = j.returnvalue;
      is_failed = is_given j.failed_reason || ltb 0 (length stacktrace);
    }

any_kept : (t : List String) → ltb 0 (length (filter is_truthy t)) ≡ any is_truthy t
any_kept [] = refl
any_kept (x ∷ xs) = ground (arith, any_kept xs)

length-reverse_aux : (xs ys : List String) → length (reverse_aux xs ys) ≡ length xs + length ys
length-reverse_aux [] ys = omega arith
length-reverse_aux (x ∷ xs) ys = omega (arith, length-reverse_aux xs (x ∷ ys))

-- What is shown of a failure: a job counts as failed exactly when it has a reason or a line of a stack
-- trace that is not empty, and the lines are shown from the last to the first.
pub format_job-failure :
    (j : JobJson) (t : List String)
    → j.stacktrace ≡ some t
    → ((format_job j).is_failed ≡ (is_given j.failed_reason || any is_truthy t))
      × (reverse (format_job j).stacktrace ≡ filter is_truthy t)
unfolding format_job
format_job-failure j t at =
    rw at (ap (λ b. is_given j.failed_reason || b) (shown t), reverse-reverse (filter is_truthy t))
  where
    shown : (t : List String) → ltb 0 (length (reverse (filter is_truthy t))) ≡ any is_truthy t
    shown t =
        let e : length (reverse (filter is_truthy t)) ≡ length (filter is_truthy t) =
          omega (arith, length-reverse_aux (filter is_truthy t) []) in
        rw e (any_kept t)

-- Whether a job shows as failed, with or without a trace.
pub format_job-is_failed :
    (j : JobJson) (o : Option (List String))
    → j.stacktrace ≡ o
    → (format_job j).is_failed ≡ (is_given j.failed_reason || any is_truthy (get_or_else o []))
unfolding format_job
format_job-is_failed j none at = rw at refl
format_job-is_failed j (some t) at = (format_job-failure j t at).0

-- `getADBDeviceInfos`: `HEADLESS_EMULATOR_AVAILABLE` decides, and a failure of adb is no error.
pub record Device : Type 0 where
  pub udid : String
  pub state : String

unfoldable pub get_adb_device_infos : Bool → Option (List Device) → List Device
get_adb_device_infos true adb = record { udid = "HEADLESS_EMULATOR"; state = "device" } ∷ []
get_adb_device_infos false none = []
get_adb_device_infos false (some devices) = devices
