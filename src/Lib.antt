-- ===== src/Lib.antt =====
-- Verification library of the test bench: of Miles, which runs the UI tests of Android apps for
-- Arthur, and of Cobb, the web interface.
--
-- The parts of the program and the files that model them. A definition keeps the name of the
-- function, field or constant it models, in lower case with underscores.
--
-- - Tester: arthur/miles/backend/worker/ui-test-worker/src, the job of a UI test. Table holds the
--   transition table of MobilePhoneTesterJob.ts and what is assumed of the package
--   javascript-state-machine (a record of its two operations and their laws); Machine the variables
--   of the job, the calls to other systems and the operations of async code; Tasks one definition
--   for each handler, with `log` and `fsmTask` of helper.ts; Loop the loop over the states and the
--   end of the job. Successor says where each state leads. Rules, Guarded, Frame, Track and Attempt
--   are proof rules for the handlers, Runs and Ends for the loop; Fuel says that the fuel is
--   enough; Cleanup, Analysis, Status, Device and Restored hold what a run keeps to, Heard what it
--   keeps to where docker grants the calls that nobody waits for; Worker is index.ts, the worker on
--   its queue.
-- - Management: arthur/miles/backend/management/src. Intake is `createMeasurementJob` of index.ts,
--   Api the handlers of /api/job/new, /api/add, /api/job/:jobId/result and /status, Pages, Queues
--   and Listing are queueInfos.ts and adbInfos.ts, Info is redisInfos.ts and the handler of
--   /api/info. The jobs that Intake queues are the ones that Tester runs.
-- - Pipeline: the two together, from the request for a job to the status that is answered for it.
-- - Frontend: arthur/miles/frontend/src, the web page of Miles. Modal is components/NewJobModal.vue
--   and Save its request, which the handler of /api/add answers; Overview is App.vue, which shows
--   what /api/info gives; Headless follows a job from the overview to its run. What multer makes of
--   a form is a parameter with its documented law.
-- - Relay: arthur/miles/backend/worker/rabbit-relay/src/RelayWorker.ts. Channel holds the cached
--   promises and the steps that change them, Job what a job sends and how it ends, Refused what the
--   promises keep to.
-- - Cobb: cobb/src/app. Letters is the case of ASCII letters; State is
--   shared/enums/measurement-state.enum.ts and shared/utils/status-file.util.ts; Stepper is
--   shared/components/custom-stepper; Rows and Derived are measurements-table.component.ts; Page is
--   measurement-results.component.ts; Sums, Colors, Highlight and Clicks are
--   result-chart.component.ts, and Charted is that chart on its page; Details and Shown are
--   result-details.component.ts with shared/services/measurement.service.ts; Stream is
--   `listenToMeasurementUpdates` of that service; Artefacts is all-artifacts-table.component.ts;
--   Insight and Scores are shared/components/eco-insight-chart; Bars is
--   variable-bar-chart.component.ts; Errors is core/interceptors and the duration pipe. Views is
--   the table of measurements as a map that forgets its rows. Categories and Settled are
--   shared/components/eco-insights-screen, and Screens is that screen on the page of a context;
--   Months and NextMonth are features/eco-insights, its page and its chart; Recent and Latest are
--   application-context-details.component.ts; Overview is application-details.component.ts; Naming
--   is the dialogs to create and to edit an application or a context; Leaving is the dialogs that
--   delete, with application.routes.ts; Forms is upload-artifacts.component.ts; Repositories is
--   add-git-repository.component.ts and git-repos-table.component.ts; Tables is the dashboard and
--   the tables of contexts, measurements and applications with shared/models/context.ts; Access is
--   core/auth; Resolvers, Pages and Opened are app.routes.ts and application.routes.ts with the
--   resolvers beside it; Crumbs and Trail are shared/components/breadcrumb; Numbers is
--   shared/services/number-format.service.ts.
-- - Common: the library's names passed on, Boolean tests, lists over native numbers, and texts.
-- - Each part has its examples in a module Tests; more of Cobb's are in Samples and Visits.
--
-- Other systems (Docker, adb, the queues, the file system, the browser) are not modelled: what they
-- answer is an argument. In Tester a `World` answers each call by the calls made so far, so a
-- theorem on a run holds for any answers. A loop of promise.retry stands for its last attempt. Work
-- that goes on in the background after a timeout has no further calls. A promise that nobody waits
-- for (the emulator's container, the listener on a timeout, a line of the log) ends the process
-- where it is rejected, as node does by default: the model ends the run at that call, and a run of
-- the program may make some calls more before the rejection arrives. The loop of the job runs on 24
-- units of fuel, one more than the 23 steps that the first state is from the end (`distance` of
-- Tester/Successor).
--
-- Times and what is written to the console are left out. Numbers of Cobb's results are of any type,
-- with a zero and an addition where they are used. A page of a queue is a whole number above 0.
-- Letters outside ASCII keep their case. A state that is the name of a member of every JavaScript
-- object, such as "toString", is not modelled. What the date pipe and JavaScript's floating-point
-- numbers print is a parameter. Templates are not modelled, and so no button that they disable: a
-- definition sends what the method sends when it is called. Express 5 answers a handler that
-- rejects with 500. The rest of Cobb (chart options) and the Python and Java services are not
-- modelled.
pub mod Common
pub mod Tester
pub mod Management
pub mod Relay
pub mod Cobb
pub mod Frontend
pub mod Pipeline
