-- ===== src/Master/Shutdown.antt =====
-- The graceful shutdown: what a controller hears when the distribution is off, and how the loop ends.
use cyclone_distributed_task.Prelude.{
  ℕ, ◌≡◌, refl, true, false, Bool, ◌||◌, some, List, [], ◌∷◌, map, arith, Text, codes, All, text_eq,
  ◌==◌, eq_iff, eq_self, if◌then◌else◌, is_nil, Bool-cases, inl, inr,
}
use cyclone_distributed_task.Py.Result.{ok}
use cyclone_distributed_task.Py.Dict.{Dict, put, remove, keys}
use cyclone_distributed_task.Msg.Message.{Message, sender, to_string, new_exit_command}
use cyclone_distributed_task.Msg.Factory.{create}
use cyclone_distributed_task.Master.State.{Config, MasterState, Round}
use cyclone_distributed_task.Master.Handlers.{handle_exit, drop_controller, stop_if_all_down}
use cyclone_distributed_task.Master.Loop.{
  round, try_round, attempt, caught, receive, answer, note_heartbeat, serve, step, run,
}

-- The round receives a valid message of this controller.
pub record IsFrom (r : Round) (controller : Text) : Type 0 where
  pub text : Text
  pub message : Message
  pub received : r.recv_data ≡ some text
  pub created : create text ≡ ok message
  pub sent_by : sender message ≡ ok controller

-- The controllers that are left behind a message of one of them
abbrev pub left : Round → Text → MasterState → Dict Text ℕ
left r controller s =
    remove controller (put controller r.heartbeat_time s.controller_heartbeat_dict)

abbrev pub dismissed : Round → Text → MasterState → MasterState
dismissed r controller s = record s {
  controller_heartbeat_dict = left r controller s;
  run_flag = if is_nil (left r controller s) then false else s.run_flag;
}

-- While the distribution is off, a valid message of any kind is answered by the exit command; its
-- sender is dropped from the controllers, the loop ends exactly when no controller is left, and
-- nothing else changes.
pub exit_round :
    (c : Config) (r : Round) (controller : Text) (s : MasterState)
    → s.task_distribution ≡ false
    → IsFrom r controller
    → round c r s ≡ (some (codes "EXIT_CMD"), dismissed r controller s)
unfolding round try_round attempt caught receive answer note_heartbeat handle_exit drop_controller
    stop_if_all_down new_exit_command to_string
exit_round c r controller s off h = simp (h.received, h.created, h.sent_by, off)

abbrev is_in : List Text → Text → Bool
is_in [] k = false
is_in (n ∷ ns) k = k == n || is_in ns k

-- Every controller of the dict is among the names.
abbrev pub AreAmong : List Text → Dict Text ℕ → Type 0
AreAmong names d = All (λ k. is_in names k ≡ true) (keys d)

keys-put :
    (P : Text → Type 0) (k : Text) (v : ℕ) (d : Dict Text ℕ)
    → P k
    → All P (keys d)
    → All P (keys (put k v d))
unfolding put
keys-put P k v [] p h = (p, tt)
keys-put P k v ((j, w) ∷ d) p h = elim (Bool-cases (k == j)) [
  | inl y ↦ rw y h
  | inr n ↦ rw n (h.0, keys-put P k v d p h.1)
]

keys-remove :
    (name : Text) (names : List Text) (d : Dict Text ℕ)
    → AreAmong (name ∷ names) d
    → AreAmong names (remove name d)
unfolding remove
keys-remove name names [] h = tt
keys-remove name names ((j, w) ∷ d) h = elim (Bool-cases (name == j)) [
  | inl y ↦ rw y (keys-remove name names d h.1)
  | inr n ↦ rw n (ground (arith, eq_iff name j, eq_iff j name, h.0), keys-remove name names d h.1)
]

left-AreAmong :
    (r : Round) (name : Text) (names : List Text) (s : MasterState)
    → AreAmong (name ∷ names) s.controller_heartbeat_dict
    → AreAmong names (left r name s)
left-AreAmong r name names s h =
    keys-remove name names _
      (keys-put (λ k. is_in (name ∷ names) k ≡ true) name _ _ (rw (eq_self name)) h)

AreAmong-nil : (d : Dict Text ℕ) → AreAmong [] d → is_nil d ≡ true
AreAmong-nil [] h = refl
AreAmong-nil ((k, v) ∷ d) h = cc h.0

-- One round for each name, with a message of that controller
abbrev pub AreFrom : List Round → List Text → Type 0
AreFrom [] [] = Unit
AreFrom (r ∷ rs) (name ∷ names) = IsFrom r name × AreFrom rs names
AreFrom _ _ = ⊥

run-serve :
    (c : Config) (r : Round) (rs : List Round) (s : MasterState)
    → run c (map serve (r ∷ rs)) s ≡ run c (map serve rs) (step c (serve r) s)
unfolding run
run-serve c r rs s = refl

step-halted :
    (c : Config) (r : Round) (s : MasterState) → s.run_flag ≡ false → step c (serve r) s ≡ s
unfolding step
step-halted c r s h = rw h refl

run-stopped :
    (c : Config) (rs : List Round) (s : MasterState)
    → s.run_flag ≡ false
    → (run c (map serve rs) s).run_flag ≡ false
unfolding run
run-stopped c [] s h = h
run-stopped c (r ∷ rs) s h =
    rw (run-serve c r rs s) (rw (step-halted c r s h) (run-stopped c rs s h))

step-running :
    (c : Config) (r : Round) (name : Text) (s : MasterState)
    → s.task_distribution ≡ false
    → s.run_flag ≡ true
    → IsFrom r name
    → step c (serve r) s ≡ dismissed r name s
unfolding step
step-running c r name s off on h = simp (on, exit_round c r name s off h)

-- The loop has ended where no name is left.
abbrev HasEnded : List Text → MasterState → Type 0
HasEnded [] s = s.run_flag ≡ false
HasEnded (name ∷ names) s = Unit

dismissed-HasEnded :
    (r : Round) (name : Text) (names : List Text) (s : MasterState)
    → AreAmong names (left r name s)
    → HasEnded names (dismissed r name s)
dismissed-HasEnded r name [] s among = rw (AreAmong-nil _ among) refl
dismissed-HasEnded r name (n ∷ ns) s among = tt

drains :
    (c : Config) (rs : List Round) (names : List Text) (s : MasterState)
    → s.task_distribution ≡ false
    → AreAmong names s.controller_heartbeat_dict
    → AreFrom rs names
    → HasEnded names s
    → (run c (map serve rs) s).run_flag ≡ false
unfolding run
drains c [] [] s off among from ended = ended
drains c [] (name ∷ names) s off among from ended = elim from [ ]
drains c (r ∷ rs) [] s off among from ended = elim from [ ]
drains c (r ∷ rs) (name ∷ names) s off among from ended = elim (Bool-cases s.run_flag) [
  | inl on ↦
      let rest = left-AreAmong r name names s among in
      rw (run-serve c r rs s, step-running c r name s off on from.0)
        (drains c rs names (dismissed r name s) off rest from.1
          (dismissed-HasEnded r name names s rest))
  | inr halted ↦ run-stopped c (r ∷ rs) s halted
]

-- When the distribution is off and each controller that the master knows of sends one more valid
-- message, in any order, the loop of the master has ended behind the last of these rounds.
pub run-drains :
    (c : Config) (r : Round) (rs : List Round) (name : Text) (names : List Text) (s : MasterState)
    → s.task_distribution ≡ false
    → AreAmong (name ∷ names) s.controller_heartbeat_dict
    → AreFrom (r ∷ rs) (name ∷ names)
    → (run c (map serve (r ∷ rs)) s).run_flag ≡ false
run-drains c r rs name names s off among from = drains c (r ∷ rs) (name ∷ names) s off among from tt
