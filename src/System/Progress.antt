-- ===== src/System/Progress.antt =====
-- What is once true of a stored run, in all that the processes of the runservice do later as long as no
-- second transaction of a scheduleRun succeeds after a failure past its UpdateRun.
use agola.Prelude.{String, ◌≡◌, ◌≤◌, some, Map, lookup}
use agola.Types.{Run}
use agola.Lifecycle.Progress.{Progress}
use agola.System.Steps.{System}

-- The run under a key is there still, and has progressed.
unfoldable RunsProgress : Map Run → Map Run → Type 0
RunsProgress runs runs' =
    (k : String) (r : Run)
    → lookup k runs ≡ some r
    → (r' : Run) × (lookup k runs' ≡ some r') × (r.revision ≤ r'.revision) × Progress r r'
