-- ===== src/Api/Server/Reads.antt =====
-- The handlers that only read leave everything as it is.
use jobsys.Base.{◌≡◌, String, arith}
use jobsys.Worker.Env.{World, Fault}
use jobsys.Api.{Libraries, query, store_error}
use jobsys.Api.Jobs.{handle_list_jobs, handle_get_job}
use jobsys.Api.Runs.{LogsQuery, handle_list_runs, handle_get_run, handle_list_logs}

module _ (lib : Libraries) where
  pub handle_get_job-world :
      (path : String) (x : Fault) (w : World) → (handle_get_job lib path x w).0 ≡ w
  unfolding handle_get_job query store_error
  handle_get_job-world path x w = ground arith

  pub handle_list_jobs-world :
      (limit : String) (x : Fault) (w : World) → (handle_list_jobs lib limit x w).0 ≡ w
  unfolding handle_list_jobs query store_error
  handle_list_jobs-world limit x w = ground arith

  pub handle_list_logs-world :
      (path : String) (q : LogsQuery) (x y : Fault) (w : World)
      → (handle_list_logs lib path q x y w).0 ≡ w
  unfolding handle_list_logs query store_error
  handle_list_logs-world path q x y w = ground arith

  pub handle_list_runs-world :
      (limit job_id : String) (x : Fault) (w : World)
      → (handle_list_runs lib limit job_id x w).0 ≡ w
  unfolding handle_list_runs query store_error
  handle_list_runs-world limit job_id x w = ground arith

  pub handle_get_run-world :
      (path : String) (x : Fault) (w : World) → (handle_get_run lib path x w).0 ≡ w
  unfolding handle_get_run query store_error
  handle_get_run-world path x w = ground arith
