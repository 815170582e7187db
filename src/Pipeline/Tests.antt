-- ===== src/Pipeline/Tests.antt =====
-- A request for a job and the run of that job, and the status of a job that fails.
use testbench.Common.{◌≡◌, refl, true, some, [], ◌∷◌, ◌++◌}
use testbench.Tester.Machine.{Outcome}
use testbench.Tester.Tasks.{is_headless}
use testbench.Tester.Loop.{run_job}
use testbench.Tester.Ends.{calls_of, machine_of}
use testbench.Tester.Status.{failure}
use testbench.Tester.Tests.{table_machine, settings, device_job, rainy, rainy_log}
use testbench.Management.Api.{Added, new_job, job_status, text}
use testbench.Management.Tests.{request, started}
use testbench.Pipeline.{Runs, status_jobs, new_job-Runs, failed_status-true}

new_job-Runs_example :
    Added
      (λ job.
        (is_headless job ≡ true)
        × (job.uuid ≡ "u1")
        × Runs rainy settings rainy_log table_machine job)
      []
      (new_job true [] (some request))
new_job-Runs_example = new_job-Runs rainy settings rainy_log table_machine true [] request

failed_status-true_example :
    (o : Outcome (Unit {0})) × (run_job rainy settings device_job table_machine ≡ some o)
    × (job_status (some (status_jobs (calls_of o) ++ started ∷ [])) "u1" ≡ text 200 failure
        → (machine_of o).failed ≡ true)
failed_status-true_example =
    failed_status-true rainy settings rainy_log table_machine device_job (started ∷ []) refl
