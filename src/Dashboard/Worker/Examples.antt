-- ===== src/Dashboard/Worker/Examples.antt =====
-- The statement about the worker at a run that is stopped before its process is launched.
use srx.Prelude.{false, some, err, os_error, Result}
use srx.Dashboard.Run
use srx.Dashboard.Run.{Run, Batch, Action}

abbrev unrecorded : Run → Result Batch
unrecorded r = err os_error

abbrev fresh : Run
fresh = Run.new "a1" "python3 cli.py" false (some "http") 5
