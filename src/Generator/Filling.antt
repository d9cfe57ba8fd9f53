-- ===== src/Generator/Filling.antt =====
-- How the task generators of task/generator/lustre_ost_monitoring_task_generator.py and
-- task/generator/benchmark_task_generator.py replace the tasks in the queue, under its lock.
use cyclone_distributed_task.Prelude.{List, [], ◌∷◌, ◌≡◌, refl, is_nil, if◌then◌else◌, ap, ◌∙◌}
use cyclone_distributed_task.Py.Result.{Result, ok}
use cyclone_distributed_task.Ctrl.SharedQueue
use cyclone_distributed_task.Ctrl.SharedQueue.{SharedQueue, clear, fill}
use cyclone_distributed_task.Ctrl.SharedQueue.Order.{clear-items, fill-items}
use cyclone_distributed_task.Task.Object.{Task}

unfoldable pub refill : List Task → SharedQueue Task → Result (SharedQueue Task)
refill task_list q =
    let cleared = if SharedQueue.is_empty q then q else clear q in
    if is_nil task_list then ok cleared else fill task_list cleared

cleared-empty :
    (q : SharedQueue Task) → (if SharedQueue.is_empty q then q else clear q) ≡ SharedQueue.empty
cleared-empty q = go q.items
  where
    go :
        (items : List Task)
        → (if is_nil items then record { items = items } else clear (record { items = items }))
          ≡ SharedQueue.empty
    go [] = refl
    go (t ∷ ts) = clear-items (record { items = t ∷ ts })

-- Whatever stood in the queue, it holds exactly the new tasks in their order, and nothing raises.
pub refill_lem :
    (task_list : List Task) (q : SharedQueue Task)
    → refill task_list q ≡ ok (record { items = task_list })
unfolding refill
refill_lem [] q = ap ok (cleared-empty q)
refill_lem (t ∷ ts) q = ap (fill (t ∷ ts)) (cleared-empty q) ∙ fill-items t ts
