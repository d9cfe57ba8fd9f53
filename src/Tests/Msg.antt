-- ===== src/Tests/Msg.antt =====
-- The theorems on messages, tasks and queues at concrete values.
use cyclone_distributed_task.Prelude.{◌≡◌, true, false, codes, pos, arith}
use cyclone_distributed_task.Py.Result.{ok, ◌>>=◌}
use cyclone_distributed_task.Task.Object.{Task}
use cyclone_distributed_task.Task.Classes.{import_class}
use cyclone_distributed_task.Task.MigrateTransfer.{
  migrate-IsTransferable, migrate-IsRebuilt, migrate_task, transfer_migrate_task,
}
use cyclone_distributed_task.Msg.Message.{type_of, task_ass, Message, to_string}
use cyclone_distributed_task.Msg.Factory.{create}
use cyclone_distributed_task.Msg.TaskAssign.{from_task, to_task}
use cyclone_distributed_task.Msg.RoundTrip.{Packet, Arrives, packet-Arrives}
use cyclone_distributed_task.Msg.TaskTransfer.{to_task-from_task}

packet-Arrives_example : Arrives (Packet.finished (codes "node-1") (codes "3:12"))
packet-Arrives_example =
    packet-Arrives (Packet.finished (codes "node-1") (codes "3:12"))
      (((λ e. cc e), omega arith), ((λ e. cc e), omega arith))

abbrev migration : Task
migration = migrate_task (codes "3:12") (codes "/lustre/f") (pos 3) (pos 12) true false true

to_task-from_task_example :
    (m : Message) × (from_task migration ≡ ok m)
    × (create (to_string m) ≡ ok m)
    × (type_of m ≡ task_ass)
    × (to_task import_class m ≡ ok migration)
to_task-from_task_example =
    to_task-from_task import_class migration (codes "3:12") (codes "self") _ _
      (migrate-IsTransferable (codes "3:12") (codes "/lustre/f") (pos 3) (pos 12) true false true
        (λ e. cc e) (omega arith) (λ e. cc e) (omega arith))
      (migrate-IsRebuilt (codes "3:12") (codes "/lustre/f") (pos 3) (pos 12) true false true)

transfer_migrate_task_example :
    (m : Message) × (from_task
        (migrate_task (codes "3:12") (codes "/lustre/f") (pos 3) (pos 12) true false true)
      ≡ ok m)
    × ((create (to_string m) >>= λ read. to_task import_class read)
        ≡ ok (migrate_task (codes "3:12") (codes "/lustre/f") (pos 3) (pos 12) true false true))
transfer_migrate_task_example =
    transfer_migrate_task (codes "3:12") (codes "/lustre/f") (pos 3) (pos 12) true false true
      (λ e. cc e) (omega arith) (λ e. cc e) (omega arith)
