-- ===== src/Generator/Migration/Opening.antt =====
-- What the first part of a round of task/generator/lustre_ost_migration_task_generator.py does: each
-- task that it pushes takes a free source and a free target.
use cyclone_distributed_task.Prelude.{
  ◌+◌, ◌≡◌, refl, some, List, [], ◌∷◌, ℤ, int_eq, arith, Bool-cases, inl, inr, ◌==◌, Text, ap,
  eq_iff, ℕ, suc, true, Option, Bool, if◌then◌else◌, drop, nat_beq, length, ◌++◌, none, false,
}
use cyclone_distributed_task.Py.Result.{Result, ok, err, key_error}
use cyclone_distributed_task.Py.Dict.{Dict, put, item, get}
use cyclone_distributed_task.Task.Object.{Task, set_attribute}
use cyclone_distributed_task.Task.Classes.{set_source_ost, set_target_ost, set_filename}
use cyclone_distributed_task.Generator.Migration.State.{
  OstState, blocked, LustreOstMigrateItem, Settings, State, is_ready, ready, locked, pending_lock,
}
use cyclone_distributed_task.Generator.Migration.Tid.{tid_of}
use cyclone_distributed_task.Generator.Migration.Booking.{taken, taken-put, count, taken-get}
use cyclone_distributed_task.Generator.Migration.Open.{
  Opens, quiet, tids-append, then-Opens, Pair, IsBooked, tids, pair_tids, opens-IsBooked,
}
use cyclone_distributed_task.Generator.Migration.Ost.{Handler}
use cyclone_distributed_task.Py.Exec.{and_then, lift, ◌>>=◌}
use cyclone_distributed_task.Generator.Migration.Dispatch.{
  fill_task, pop_last, push_task, dispatch_item, push_filled, search_target, dispatch, try_source,
  try_sources, with_cache,
}

-- The task that a call returns has this id.
abbrev HasTid : Text → Result Task → Type 0
HasTid tid (ok task) = task.tid ≡ some tid
HasTid tid (err e) = Unit

set_filename-HasTid :
    (tid filename : Text) (task : Task)
    → task.tid ≡ some tid
    → HasTid tid (set_filename task filename)
unfolding set_filename set_attribute
set_filename-HasTid tid [] task h = tt
set_filename-HasTid tid (c ∷ filename) task h = h

fill_task-HasTid :
    (c : Settings) (skeleton : Task) (source target : ℤ) (i : LustreOstMigrateItem)
    → HasTid (tid_of source target) (fill_task c skeleton source target i)
unfolding fill_task set_source_ost set_target_ost set_attribute
fill_task-HasTid c skeleton source target i = elim (Bool-cases c.local_mode) [
  | inl y ↦ rw y refl
  | inr n ↦ rw n (set_filename-HasTid (tid_of source target) i.filename _ refl)
]

put_opened :
    (ost : ℤ) (d : Dict ℤ OstState)
    → taken ost d ≡ 0
    → (k : ℤ) → taken k (put ost blocked d) ≡ taken k d + count k (ost ∷ [])
unfolding count
put_opened ost d h k = elim (Bool-cases (ost == k)) [
  | inl y ↦
      rw (taken-put ost blocked d k, y) (omega (arith, h, ap (λ x. taken x d) ((eq_iff ost k).0 y)))
  | inr n ↦ rw (taken-put ost blocked d k, n) (omega arith)
]

push_task-Opens :
    (source target : ℤ) (task : Task) (s : State)
    → task.tid ≡ some (tid_of source target)
    → taken source s.ost_source_state_dict ≡ 0
    → taken target s.ost_target_state_dict ≡ 0
    → Opens s (push_task source target task s)
unfolding push_task
push_task-Opens source target task s h free_source free_target = (
  (source, target) ∷ [],
  record {
    pushed = rw (← h) (tids-append s.task_queue.items (task ∷ []));
    source_opened = put_opened source _ free_source;
    target_opened = put_opened target _ free_target;
    same_results = refl;
  },
)

dispatch_item-Opens :
    (c : Settings) (skeleton : Task) (source target : ℤ) (first : LustreOstMigrateItem)
    (cache : List LustreOstMigrateItem) (s : State)
    → taken source s.ost_source_state_dict ≡ 0
    → taken target s.ost_target_state_dict ≡ 0
    → Opens s (dispatch_item c skeleton source target first cache s).1
unfolding dispatch_item push_filled
dispatch_item-Opens c skeleton source target first cache s free_source free_target =
    let popped = pop_last first cache in
    go popped.0 (fill_task c skeleton source target popped.1)
      (fill_task-HasTid c skeleton source target popped.1)
  where
    go :
        (rest : List LustreOstMigrateItem) (r : Result Task)
        → HasTid (tid_of source target) r
        → Opens s (push_filled source target rest r s).1
    go rest (err e) h = quiet s _ refl refl refl refl
    go rest (ok task) h =
        let after = record s { ost_cache_dict = put source rest s.ost_cache_dict } in
        then-Opens s after _ (quiet s after refl refl refl refl)
          (push_task-Opens source target task after h free_source free_target)

-- What goes on behind a look at the state of an OST may use that a ready OST is free.
with_state :
    {A : Type 0} (ost : ℤ) (d : Dict ℤ OstState) (body : OstState → Handler A) (s : State)
    → ((state : OstState) → (is_ready state ≡ true → taken ost d ≡ 0) → Opens s (body state s).1)
    → Opens s ((lift (item ost d) >>= body) s).1
with_state ost d body s keeps = go (get ost d) refl
  where
    go :
        (o : Option OstState)
        → get ost d ≡ o
        → Opens s ((lift (elim o [ none ↦ err key_error | some v ↦ ok v ]) >>= body) s).1
    go none e = quiet s s refl refl refl refl
    go (some ready) e = keeps ready (λ h. taken-get ost d e)
    go (some locked) e = keeps locked (λ h. taken-get ost d e)
    go (some blocked) e = keeps blocked (λ h. cc h)
    go (some pending_lock) e = keeps pending_lock (λ h. cc h)

either :
    {A : Type 0} (b : Bool) (x y : Handler A) (s : State)
    → (b ≡ true → Opens s (x s).1)
    → Opens s (y s).1
    → Opens s ((if b then x else y) s).1
either true x y s left right = left refl
either false x y s left right = right

bind-Opens :
    {A B : Type 0} (m : Handler A) (f : A → Handler B) (s : State)
    → Opens s (m s).1
    → ((a : A) (t : State) → Opens t (f a t).1)
    → Opens s ((m >>= f) s).1
bind-Opens m f s h g = go (m s) h
  where
    go : (r : Result _ × State) → Opens s r.1 → Opens s (and_then r.0 f r.1).1
    go (ok a, t) h = then-Opens s t _ h (g a t)
    go (err e, t) h = h

-- A step that changes no state of an OST and no queue is followed by the rest.
after_quiet :
    (s t u : State)
    → t.ost_source_state_dict ≡ s.ost_source_state_dict
    → t.ost_target_state_dict ≡ s.ost_target_state_dict
    → t.task_queue ≡ s.task_queue
    → t.result_queue ≡ s.result_queue
    → Opens t u
    → Opens s u
after_quiet s t u a b c d h = then-Opens s t u (quiet s t a b c d) h

search_target-Opens :
    (c : Settings) (skeleton : Task) (source : ℤ) (first : LustreOstMigrateItem)
    (cache : List LustreOstMigrateItem) (targets : List ℤ) (counter : ℕ) (s : State)
    → taken source s.ost_source_state_dict ≡ 0
    → Opens s (search_target c skeleton source first cache targets counter s).1
unfolding search_target
search_target-Opens c skeleton source first cache [] counter s h = quiet s s refl refl refl refl
search_target-Opens c skeleton source first cache (target ∷ targets) counter s h =
    let t = record s { next_target_ost_key_index = suc s.next_target_ost_key_index } in
    after_quiet s t _ refl refl refl refl (
      with_state target s.ost_target_state_dict _ t (λ state free.
        either (is_ready state) _ _ t
          (λ r.
            bind-Opens (dispatch_item c skeleton source target first cache) _ t
              (dispatch_item-Opens c skeleton source target first cache t h (free r))
              (λ a u. quiet u u refl refl refl refl))
          (search_target-Opens c skeleton source first cache targets (suc counter) t h)))

with_cache-Opens :
    (c : Settings) (skeleton : Task) (targets : List ℤ) (source : ℤ)
    (cache : List LustreOstMigrateItem) (counter : ℕ) (s : State)
    → taken source s.ost_source_state_dict ≡ 0
    → Opens s (with_cache c skeleton targets source cache counter s).1
unfolding with_cache
with_cache-Opens c skeleton targets source [] counter s h = quiet s s refl refl refl refl
with_cache-Opens c skeleton targets source (first ∷ cache) counter s h =
    bind-Opens
      (search_target c skeleton source first cache (drop s.next_target_ost_key_index targets)
        counter)
      _ s (search_target-Opens c skeleton source first cache _ counter s h)
      (λ a t. quiet t _ refl refl refl refl)

try_source-Opens :
    (c : Settings) (skeleton : Task) (targets : List ℤ) (source : ℤ) (counter : ℕ) (s : State)
    → Opens s (try_source c skeleton targets source counter s).1
unfolding try_source
try_source-Opens c skeleton targets source counter s =
    with_state source s.ost_source_state_dict _ s (λ state free.
      either (is_ready state) _ _ s (λ r. look (item source s.ost_cache_dict) (free r))
        (quiet s s refl refl refl refl))
  where
    look :
        (r : Result (List LustreOstMigrateItem))
        → taken source s.ost_source_state_dict ≡ 0
        → Opens s ((lift r >>= λ cache. with_cache c skeleton targets source cache counter) s).1
    look (err e) h = quiet s s refl refl refl refl
    look (ok cache) h = with_cache-Opens c skeleton targets source cache counter s h

try_sources-Opens :
    (c : Settings) (skeleton : Task) (targets sources : List ℤ) (counter : ℕ) (s : State)
    → Opens s (try_sources c skeleton targets sources counter s).1
unfolding try_sources
try_sources-Opens c skeleton targets [] counter s = quiet s s refl refl refl refl
try_sources-Opens c skeleton targets (source ∷ sources) counter s =
    either (nat_beq counter (length targets)) _ _ s (λ h. quiet s s refl refl refl refl)
      (after_quiet s t _ refl refl refl refl (
        bind-Opens (try_source c skeleton targets source counter) _ t
          (try_source-Opens c skeleton targets source counter t)
          (λ checked u. try_sources-Opens c skeleton targets sources checked u)))
  where
    t : State
    t = record s { next_source_ost_key_index = suc s.next_source_ost_key_index }

-- Whatever the first part of a round returns or raises: it has pushed tasks whose ids name the pairs
-- of a list, at the end of the queue and in that order, and with the open migrations and these pairs,
-- an OST is still taken exactly as often as it is the source, or the target, of an open migration.
pub dispatch-IsBooked :
    (c : Settings) (skeleton : Task) (target_keys : List ℤ) (open_pairs : List Pair) (s : State)
    → IsBooked open_pairs s
    → let t = (dispatch c skeleton target_keys s).1 in
      (pairs : List Pair) × (tids t.task_queue.items ≡ tids s.task_queue.items ++ pair_tids pairs)
      × IsBooked (open_pairs ++ pairs) t
      × (t.result_queue ≡ s.result_queue)
unfolding dispatch
dispatch-IsBooked c skeleton target_keys open_pairs s b =
    let (pairs, h) = opened in
    (pairs, h.pushed, opens-IsBooked open_pairs pairs s _ b h, h.same_results)
  where
    opened : Opens s (dispatch c skeleton target_keys s).1
    opened = after_quiet s _ _ refl refl refl refl (try_sources-Opens c skeleton target_keys _ 0 _)
