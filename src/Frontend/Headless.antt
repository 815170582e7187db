-- ===== src/Frontend/Headless.antt =====
-- From the overview to the emulator: the user interface (arthur/miles/frontend/src) on a management
-- service that offers its headless emulator, and the run of the job that is asked for.
use testbench.Common.{
  ◌≡◌, refl, Bool, true, false, some, List, [], ◌∷◌, String, ◌===◌, any, ap, ◌∙◌, inl, inr, eq_iff,
  Bool-cases,
}
use testbench.Tester.Table.{StateMachine}
use testbench.Tester.Machine.{JobData, Settings, World}
use testbench.Tester.Tasks.{is_headless}
use testbench.Tester.Frame.{LogWorks}
use testbench.Tester.Cleanup.{emulator-removed}
use testbench.Management.Intake.{trim}
use testbench.Management.Info.{RedisInfo, Sources, info}
use testbench.Management.Queues.{get_adb_device_infos}
use testbench.Frontend.Modal.{Modal, show_modal, Input, input}
use testbench.Frontend.Overview.{
  Overview, refreshed, show_new_job_modal, refresh_stats, show_response,
}
use testbench.Frontend.Save.{FormParser, save, IsAsked, Unless, save-IsAsked}
use testbench.Management.Api.{Upload}
use testbench.Pipeline.{Runs}

-- A device can only be picked from the list.
abbrev pub IsOffered : List String → Input → Type 0
IsOffered devices (Input.picked_device d) = any (λ (e : String). d === e) devices ≡ true
IsOffered devices i = Unit

abbrev pub AreOffered : List String → List Input → Type 0
AreOffered devices [] = Unit
AreOffered devices (i ∷ inputs) = IsOffered devices i × AreOffered devices inputs

-- The inputs between the opening of the modal and its end.
abbrev pub filled : List Input → Modal → Modal
filled [] m = m
filled (i ∷ inputs) m = filled inputs (input i m)

-- Only the one device can be selected.
abbrev pub IsOnly : String → Modal → Type 0
IsOnly d m = m.selected_device ≡ d

input-IsOnly :
    (d : String) (i : Input) (m : Modal) → IsOffered (d ∷ []) i → IsOnly d m → IsOnly d (input i m)
unfolding input
input-IsOnly d (Input.picked_device e) m offered only = elim (Bool-cases (e === d)) [
  | inl same ↦ (eq_iff e d).0 same
  | inr other ↦ let wrong : false ≡ true = rw other at offered in cc
]
input-IsOnly d i m offered only = only

filled-IsOnly :
    (d : String) (inputs : List Input) (m : Modal)
    → AreOffered (d ∷ []) inputs
    → IsOnly d m
    → IsOnly d (filled inputs m)
filled-IsOnly d [] m offered only = only
filled-IsOnly d (i ∷ inputs) m offered only =
    filled-IsOnly d inputs (input i m) offered.1 (input-IsOnly d i m offered.0 only)

Unless-map :
    {P Q : JobData → Type 0} {queue : List JobData} {m : Modal} {r : Modal × List JobData}
    → ((job : JobData) → P job → Q job)
    → Unless P queue m r
    → Unless Q queue m r
Unless-map f (inl same) = inl same
Unless-map f (inr (job, queued, closed, p)) = inr (job, queued, closed, f job p)

module _ {N : Type 0} (number : String → N) (is_number : N → Bool) (s : Sources) (r : RedisInfo)
    (answers : s.redis ≡ some r) (offers : s.headless_emulator_available ≡ true) where
  -- The modal that the overview opens after a refresh has the emulator selected.
  opened-IsOnly :
      (o : Overview N) (m : Modal)
      → IsOnly "HEADLESS_EMULATOR" (show_new_job_modal (refreshed number is_number s o) true m)
  unfolding refreshed info show_new_job_modal show_modal refresh_stats show_response
      get_adb_device_infos
  opened-IsOnly o m = rw (answers, offers) refl

asked-headless :
    (m : Modal) (job_id : String) (job : JobData)
    → IsOnly "HEADLESS_EMULATOR" m
    → IsAsked m job_id job
    → is_headless job ≡ true
unfolding trim
asked-headless m job_id job only asked =
    ap (λ d. d === "HEADLESS_EMULATOR") (asked.device_lem ∙ ap trim only)

module _ (w : World) (cfg : Settings) (works : LogWorks w) (lib : StateMachine) where
  -- A service that offers its headless emulator, whose redis answers, and a local storage whose text
  -- is JSON: the overview is refreshed and opens the modal, whatever is put in there with a device
  -- picked, if any, from the list, and saved. Then nothing has changed, or one job is queued as the
  -- last one and the modal is closed: the job is what the form says and uses the emulator, and where
  -- the log accepts every line its run ends. If the run returns or throws and has asked for the
  -- emulator, it has asked for the removal of the emulator's container before; else its process has
  -- ended, after docker refused to run the emulator or to remove the test's container for an expired
  -- test, for neither of which the job waits.
  pub saved-Runs :
      {N : Type 0} (number : String → N) (is_number : N → Bool) (s : Sources) (r : RedisInfo)
      (o : Overview N) (m : Modal) (inputs : List Input) (parser : FormParser) (up : Upload)
      (job_id : String) (parses accepts : Bool) (queue : List JobData)
      → parses ≡ true
      → s.redis ≡ some r
      → s.headless_emulator_available ≡ true
      → AreOffered ("HEADLESS_EMULATOR" ∷ []) inputs
      → let form = filled inputs (show_new_job_modal (refreshed number is_number s o) parses m) in
        Unless
          (λ job. IsAsked form job_id job × (is_headless job ≡ true) × Runs w cfg works lib job)
          queue
          form
          (save parser up job_id accepts queue form)
  saved-Runs number is_number s r o m inputs parser up job_id parses accepts queue is_json answers
        offers picked =
      let only =
        filled-IsOnly "HEADLESS_EMULATOR" inputs _ picked
          (opened-IsOnly number is_number s r answers offers o m) in
      rw is_json (
        Unless-map
          (λ job asked.
            (asked, asked-headless _ job_id job only asked, emulator-removed w cfg job works lib))
          (save-IsAsked parser up job_id accepts queue _))
