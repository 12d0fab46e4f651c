-- ===== src/TaskService/Examples.antt =====
-- A stopped and a failed task are retried, and the theorem at them.
use fastedgy.Prelude.{some, List, [], ◌∷◌}
use fastedgy.QueuedTask.{QueuedTask, stopped, failed}
use fastedgy.Queue.Samples.{row}
use fastedgy.TaskService.{retry_task}
use fastedgy.TaskService.Retry.{Retries, retry_task-Retries}

abbrev table : List QueuedTask
table = row 1 stopped 0 (some "a") ∷ row 2 failed 0 (some "a") ∷ []

retry_task-Retries_example :
    Retries 50 2 table (retry_task (some 3) 50 2 table).0 (retry_task (some 3) 50 2 table).1
retry_task-Retries_example = retry_task-Retries (some 3) 50 2 table
