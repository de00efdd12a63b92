-- ===== src/Worker/Fenced.antt =====
-- How execute ends when its worker has lost the attempt.
use jobsys.Worker.Execute.{Env}
