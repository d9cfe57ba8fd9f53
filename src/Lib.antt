-- ===== src/Lib.antt =====
-- The Cyclone distributed task framework: a master hands out tasks to controllers on other hosts, each
-- controller passes them to its worker processes, and task generators feed the master and read the
-- results. This library models the core of that program and proves what makes it correct.
--
-- The parts, and the files that model them:
--
-- - Prelude, Py: what the source uses of Python. Texts are lists of code points, `int` is a signed
--   integer, a `dict` keeps its insertion order, exceptions are values (Py/Result), and statements
--   that change an object and may raise are functions from a state to a result and the state behind
--   it, also after an exception (Py/Exec). Py/Str and Py/Int hold the text operations, with
--   `str(n)` and `int(s)` as inverses in Py/Int/RoundTrip; Py/Number has `%` and `int(a / b)`, and
--   Py/Utf8 the reading of a file as text.
-- - Msg: the messages between master and controllers (msg/). `init`, `type_of` and `to_string` are the
--   methods of `BaseMessage`, `new_...` are the constructors, Msg/Factory is
--   `MessageFactory.create`, and Msg/TaskAssign is `TaskAssign` with `from_task` and `to_task`.
--   Msg/RoundTrip, Msg/AssignText and Msg/TaskTransfer follow a message from one side to the other.
-- - Task: tasks as objects of classes (task/base_task.py), the factory (task/task_factory.py), and the
--   classes with their constructors. A class is a record with its names, the parameters of
--   its constructor and the constructor; what `importlib` finds is a parameter. Task/Io has the two I/O tasks
--   (task/lustre_io_task.py, task/lustre_alert_io_task.py, db/ost_perf_result.py): Task/Io/Block writes and
--   reads the test file, Task/Io/Execute and Task/Io/Alert are the two `execute`, and Task/Io/Reading,
--   Task/Io/RoundTrip, Task/Io/Sent and Task/Io/Cleanup are about them. Task/Check is
--   task/lustre_file_creation_check_task.py, with its loop in Task/Check/Sending and the way of its results
--   in Task/Check/Delivery. Task/Xml is task/xml/task_xml_reader.py; Task/Xml/Loop and Task/Xml/Unique are
--   about it.
-- - Ctrl: the queues between processes (ctrl/shared_queue.py, ctrl/shared_queue_str.py), the status of
--   a task (ctrl/task_status_item.py) and the PID file (ctrl/pid_control.py).
-- - Master: the loop of cyclone-master.py. Master/State holds its variables and what one round reads
--   from outside, Master/Handlers the branches for each kind of message and for a poll timeout,
--   Master/Loop the round with its exception handler and the steps of the other processes. The
--   other files are about the loop: Master/Assignment, Master/Finish, Master/Invariant,
--   Master/Timeout, Master/Shutdown. Master/Process is what `main` does around the loop, with Master/Ending
--   about the end of the generator process and Master/Exit about the exit code; Master/Counting is about the count of exceptions.
-- - Controller: Controller/Worker is worker.py with the functions of cyclone-controller.py that make
--   workers, Controller/Loop the loop of cyclone-controller.py; Controller/WorkerRuns and
--   Controller/Retry are about them.
-- - Generator: Generator/Migration is task/generator/lustre_ost_migration_task_generator.py, with the
--   settings and variables in State, the states of the OSTs in Ost, the input files in Files, the ids
--   in Tid and the loop of `run` in Dispatch; Booking, Open, Opening, Collected, Steady, Periodic and
--   Loading are about it; Life and Reached follow it from its start, beside the master.
--   Generator/Monitoring and Generator/Benchmark are the other two generators, and Generator/Filling is what they share.
--   Generator/Base is task/generator/base_task_generator.py with util/interruptable_sleep.py, in milliseconds; its
--   sleeps are those of a natural number of them, and the signal comes while the process sleeps. Generator/Base/Sleep is about the sleep.
-- - Prometheus: the results of the file creation check and their metrics
--   (prometheus/lustre_file_creation_check.py), and their text in Prometheus/Render.
-- - Pushgateway: the loop of cyclone-pushgateway-client.py, and what it promises in Pushgateway/Batches.
-- - Conf, Comm: the configuration readers (conf/) and the socket handlers (comm/); Conf/Ranges has the bounds
--   that they check.
-- - Database: the loop of cyclone-database-proxy.py with db/ost_perf_history_table_handler.py, and what
--   it keeps in Database/Kept; Database/Statement is about the text of its statements.
-- - Trip: the way of a task through master, controller and worker and back.
-- - Tests: the theorems at concrete values.
--
-- How they interact: a generator pushes tasks with ids into the task queue; the master pops one for a
-- controller's request, notes its status and sends it as a text; the controller rebuilds the
-- task from the text and pushes it into the queue of its workers; a worker executes it and pushes
-- its id as a result; the controller reports the id to the master, which marks the task as finished
-- and pushes the id into the generator's result queue. The generator for migrations reads from the id
-- which two OSTs are free again.
--
-- Bounds and fuel: the loops over a list are recursions on it, and `while` loops that wait for the
-- outside are recursions on a list of rounds, each with what the round reads from outside: messages,
-- clock values, whether a process is alive, and how a call of `execute` of a task ends (it returns, raises, ends
-- the process or does not end). The loop over the result queue of the migration
-- generator has the length of the queue as its fuel; ids that arrive while it runs are taken in the
-- next round. Queues have no bound, as in the source. Numbers have no bound either, except the C
-- integers and the array of 64 bytes in the worker state table.
--
-- The block-wise reading of an I/O task has one more than the length of the file as its fuel. Floats are a
-- parameter with the operations that the code uses (`Floats` in Task/Io), and `int(a / b)` on integers is the
-- integer quotient, as it is in Python below 2 ** 53.
--
-- Not modelled: what the libraries outside of the repository do (sockets, the parser of XML and of
-- configuration files, Lustre, the mail server, HTTP requests), which enters as inputs; `execute` of the
-- migration task, which only calls such a library; command lines and logging. A
-- lock is not a value: the queues change in whole steps, as the accesses under the lock do. A queue is a list:
-- that `multiprocessing.Queue` may call itself empty for a moment after an item was put is left out. `is_locked` of a round says whether the master got the lock in time. `recv_string` never
-- returns an empty text (comm/base_handler.py).
pub mod Prelude
pub mod Py
pub mod Msg
pub mod Task
pub mod Ctrl
pub mod Master
pub mod Generator
pub mod Controller
pub mod Prometheus
pub mod Database
pub mod Pushgateway
pub mod Trip
pub mod Tests
pub mod Conf
pub mod Comm
