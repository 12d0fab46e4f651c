-- ===== src/Lib.antt =====
-- A verification library for fastedgy.
--
-- What is modelled, and where. Paths are from the repository's root.
--
-- - Prelude: shared names, Boolean tests, lists over native numbers, slices, integers.
-- - Text: Python's str as a list of code points, and the methods that the program calls.
-- - TextMerge: fastedgy/text_merge.py, the three-way line merge that the offline sync uses for long
--   text. hunks is _hunks, merge_lines is merge_text_blocks between splitlines and join. The opcodes of
--   difflib are a parameter; TextMerge/Script states what its documentation says of them (IsDiffer).
-- - QueuedTask: fastedgy/queued_task/models/queued_task.py, the row of a queued task with save and the
--   methods that mark, restart and classify it.
-- - Queue: the statements of fastedgy/queued_task/services/queue_worker_manager.py on the rows: the
--   claim, the release, the recovery at boot and the reaper. A table is a list of rows, an UPDATE a
--   map, NOW() an argument. The clause SKIP LOCKED is a test that says which rows are locked.
--   Queue/Channels has the slots of the channels in one container, with claims, loads and ends in any
--   order; Queue/Cascade is _cascade_to_descendants, Queue/Orphans the last passes of the reaper and the
--   whole round, Queue/Purge the purge of old rows.
-- - QueueWorker: fastedgy/queued_task/services/queue_worker.py, one run of a task and the guarded
--   writes that end it. Whether a write reaches the database is an argument. QueueWorker/AutoRemove is
--   the removal of a finished task and of the ancestors that waited for it.
-- - WorkerPool: fastedgy/queued_task/services/worker_pool.py, the pool of queue workers with its idle
--   queue, its busy workers and the timers of the idle ones; Step and Reach are the calls in any order.
-- - Transaction: fastedgy/orm/transaction.py, a transaction that is replayed on a conflict, with the
--   request context and the deferred callbacks. What a run of the factory does is a parameter.
--   Transaction/Retry is retry_on_serialization.
-- - Sync: fastedgy/api_route_model/actions/sync_action.py. Sync.antt is the merge of one buffered
--   update field by field, Sync/Batch the application of one operation in its savepoint and of the
--   batch. The patch and delete actions of the route are the record Route.
-- - Filters: fastedgy/orm/filter/parser.py and types.py, the two passes that read a filter given as a
--   JSON list. Filters/Printed writes a filter as such a list. Filters/Validate is validator.py, with the
--   table of operators.py in Filters/Operators; what it asks of the models is the record Models.
--   Filters/Query is filter_query of builder.py with the choice of the expression for each rule.
-- - Bus: fastedgy/bus/service.py, the listeners of each event by priority and the dispatch to them.
--   Bus/Reached has the calls in any order.
-- - Relations: fastedgy/orm/relations/utils.py and processor.py, the operations of a request on the
--   records of a relation and on a foreign key. The ORM is the record Relations/Manager, with the laws
--   that its documentation states and a condition on deletions; Relations/Rows is a store that obeys them.
-- - SearchParser: fastedgy/orm/filter/search_parser.py, a search text as an expression of to_tsquery.
-- - FieldSelector: fastedgy/orm/field_selector.py, the fields that a client asks for, as a tree over the
--   models, which are the record Schema. FieldSelector/Columns is the choice of joins and columns of the
--   query for it.
-- - TaskContext: fastedgy/queued_task/context.py, the execution context read and written by paths, as a
--   value. That the code shares nested dicts with the former context is not modelled.
-- - Batching: fastedgy/queued_task/batching.py, the tasks of ranges of ids and the iteration with a
--   cursor in the context of the task. A crash is the number of ids that a run is asked for.
-- - TaskCreation: fastedgy/queued_task/services/queued_tasks.py and queued_task_ref.py with the lock of
--   fastedgy/lifecycle.py, the queue of the requests for new tasks and the task that works it off.
--   Reach is the calls of add_task and the steps of that task in any order; what the creation of a row
--   comes to is an argument of a step.
-- - TaskService: create_task and retry_task of fastedgy/queued_task/services/queued_tasks.py, the rows
--   that they write.
-- - Cron: fastedgy/queued_task/scheduler/cron_scheduler.py and registry.py, the tasks that are due in a
--   minute and the row that each gets. A transaction under the lock of a name is one step. Cron/Unique
--   has these steps among the writes of the queue, the RowStep of QueueWorker/Steps.
-- - AccessGuard: fastedgy/orm/access_guard.py, the guards of models with their cache, and the checks
--   before a read and a write.
--
-- How the parts interact: the manager claims rows (Queue.claim) and hands each to a worker of the pool
-- (WorkerPool.get_available_worker), which runs it (QueueWorker.run_task) and writes the row at the end;
-- the reaper (Queue.reap) puts back or fails the rows that no worker will finish. Rows come from the
-- scheduler (Cron.run_minute) by way of TaskService.create_task, from the creation queue (TaskCreation)
-- and from a retry (TaskService.retry_task), whose row the claim of Queue takes next. A run that goes over
-- many ids keeps its cursor in the context of its task (Batching, TaskContext), which a retry of the run
-- starts from. A batch of buffered writes (Sync.sync_items) is a retried transaction
-- (Transaction.with_transaction) and merges long texts by lines (TextMerge.merge_text_blocks). A filter
-- is parsed (Filters), validated (Filters/Validate) and built into a query (Filters/Query).
--
-- Fuel: run_attempts counts the rounds of range(retries + 1) and so needs no more than retries + 1;
-- retry_rounds counts those of range(max_attempts); tokenize takes as much as the text is long, and
-- each round takes a character or more; chunk_tasks takes one for each id, and each chunk has one or
-- more; merge_computed_dep takes 11, the depths 0 to 10 of the source, and opts out of the pruning after
-- them; remove_ancestors takes the 32 hops of the source. All other loops run over lists or over the
-- JSON value that is parsed.
--
-- Not modelled: the HTTP routes, the ORM and its SQL generation, storage, mail, the command line and
-- the migrations, which are mostly calls of other libraries.
pub mod Prelude
pub mod Text
pub mod TextMerge
pub mod QueuedTask
pub mod Queue
pub mod QueueWorker
pub mod WorkerPool
pub mod Transaction
pub mod Sync
pub mod Filters
pub mod Bus
pub mod Relations
pub mod SearchParser
pub mod FieldSelector
pub mod TaskContext
pub mod Batching
pub mod TaskCreation
pub mod TaskService
pub mod Cron
pub mod AccessGuard
