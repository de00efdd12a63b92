-- ===== src/Ctl/Status.antt =====
-- The texts of statuses and triggers, internal/store/models.go and migrations/001_init.sql.
use jobsys.Base.{String}
use jobsys.Store.Models.{
  Status, queued, running, succeeded, failed, cancelled, Trigger, schedule, manual,
}

-- The constants of models.go.
unfoldable pub status_text : Status → String
status_text queued = "QUEUED"
status_text running = "RUNNING"
status_text succeeded = "SUCCEEDED"
status_text failed = "FAILED"
status_text cancelled = "CANCELLED"

-- The values of the column.
unfoldable pub trigger_text : Trigger → String
trigger_text schedule = "schedule"
trigger_text manual = "manual"
