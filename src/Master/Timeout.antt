-- ===== src/Master/Timeout.antt =====
-- The branch of the master's loop for a poll timeout after the end of the distribution. It removes
-- entries of the dict that it iterates over, which Python's iterator answers by an exception.
use cyclone_distributed_task.Prelude.{
  ℕ, ◌+◌, ◌*◌, ◌<◌, ◌≤◌, ◌≡◌, true, some, List, [], ◌∷◌, ◌++◌, arith, Text, All, text_eq, nat_beq,
  length, none, false, if◌then◌else◌, is_nil, ◌∙◌, refl,
}
use cyclone_distributed_task.Py.Result.{ok, err, runtime_error, Result, Error}
use cyclone_distributed_task.Py.Dict.{Dict, get, remove, for_keys, keys}
use cyclone_distributed_task.Master.State.{Config, Round, MasterState}
use cyclone_distributed_task.Master.Handlers.{
  drop_expired, handle_timeout, after_loop, stop_if_all_down,
}
use cyclone_distributed_task.Master.Loop.{on_exception, round, try_round, attempt, caught}

abbrev HeartbeatDict : Type 0
HeartbeatDict = Dict Text ℕ

-- A controller has been silent for the timeout.
abbrev pub IsExpired : Config → Round → HeartbeatDict → Text → Type 0
IsExpired c r d name =
    (seen : ℕ) × (get name d ≡ some seen)
    × (seen * 1000 + c.controller_timeout_ms ≤ r.last_exec_timestamp * 1000)

-- A controller has been heard of within the timeout.
abbrev pub IsAlive : Config → Round → HeartbeatDict → Text → Type 0
IsAlive c r d name =
    (seen : ℕ) × (get name d ≡ some seen)
    × (r.last_exec_timestamp * 1000 < seen * 1000 + c.controller_timeout_ms)

length-remove_le : (k : Text) (d : HeartbeatDict) → length (remove k d) ≤ length d
unfolding remove
length-remove_le k [] = omega arith
length-remove_le k ((j, v) ∷ d) = ground (arith, length-remove_le k d)

length-remove :
    (k : Text) (v : ℕ) (d : HeartbeatDict) → get k d ≡ some v → length (remove k d) < length d
unfolding remove get
length-remove k v [] e = cc
length-remove k v ((j, w) ∷ d) e = ground (arith, length-remove k v d, length-remove_le k d)

module _ (c : Config) (r : Round) (d : HeartbeatDict) where
  drop_expired-IsAlive : (name : Text) → IsAlive c r d name → drop_expired c r name d ≡ d
  unfolding drop_expired
  drop_expired-IsAlive name (seen, e, lt) = rw (e, drop_expired) (ground arith)

  drop_expired-IsExpired :
      (name : Text) → IsExpired c r d name → drop_expired c r name d ≡ remove name d
  unfolding drop_expired
  drop_expired-IsExpired name (seen, e, le) = rw (e, drop_expired) (ground arith)

  nat_beq_self : (n : ℕ) → nat_beq n n ≡ true
  nat_beq_self n = ground arith

  for_keys-All :
      (ks : List Text)
      → All (IsAlive c r d) ks
      → for_keys (drop_expired c r) (length d) ks d ≡ (ok tt, d)
  unfolding for_keys
  for_keys-All [] h = rw (nat_beq_self (length d))
  for_keys-All (k ∷ ks) h =
      rw (drop_expired-IsAlive k h.0, for_keys-All ks h.1, nat_beq_self (length d))

  for_keys-shrunk :
      (ks : List Text) (d' : HeartbeatDict)
      → length d' < length d
      → for_keys (drop_expired c r) (length d) ks d' ≡ (err runtime_error, d')
  unfolding for_keys
  for_keys-shrunk [] d' h = ground arith
  for_keys-shrunk (k ∷ ks) d' h = ground arith

  for_keys-expired :
      (before : List Text) (name : Text) (behind : List Text)
      → All (IsAlive c r d) before
      → IsExpired c r d name
      → for_keys (drop_expired c r) (length d) (before ++ (name ∷ behind)) d
        ≡ (err runtime_error, remove name d)
  unfolding for_keys
  for_keys-expired [] name behind h (seen, e, le) = rw (
    drop_expired-IsExpired name (seen, e, le),
    for_keys-shrunk behind (remove name d) (length-remove name seen d e),
    nat_beq_self (length d),
  )
  for_keys-expired (k ∷ before) name behind h x = rw (
    drop_expired-IsAlive k h.0,
    for_keys-expired before name behind h.1 x,
    nat_beq_self (length d),
  )

-- A round that receives nothing while the distribution is off
module _ (c : Config) (r : Round) (s : MasterState) where
  abbrev d : HeartbeatDict
  d = s.controller_heartbeat_dict

  -- What the exception of the iterator leaves: one exception is counted, and the controller is gone.
  abbrev pub interrupted : Text → MasterState
  interrupted name = on_exception (record s { controller_heartbeat_dict = remove name d })

  timeout-after :
      (loop : Result (Unit {0}) × HeartbeatDict)
      → s.task_distribution ≡ false
      → for_keys (drop_expired c r) (length d) (keys d) d ≡ loop
      → handle_timeout c r s ≡ after_loop loop s
  unfolding handle_timeout
  timeout-after loop off e = simp (off, e)

  round-returns :
      (s' : MasterState)
      → r.recv_data ≡ none
      → handle_timeout c r s ≡ (ok tt, s')
      → round c r s ≡ (none, s')
  unfolding round try_round attempt caught
  round-returns s' n h = simp (n, h)

  round-raises :
      (e : Error) (s' : MasterState)
      → r.recv_data ≡ none
      → handle_timeout c r s ≡ (err e, s')
      → round c r s ≡ (none, on_exception s')
  unfolding round try_round attempt caught
  round-raises e s' n h = simp (n, h)

-- After a poll timeout while the distribution is off, with every controller heard of within the
-- timeout, the round only ends the loop when there is no controller.
pub timeout_alive :
    (c : Config) (r : Round) (s : MasterState)
    → s.task_distribution ≡ false
    → r.recv_data ≡ none
    → All (IsAlive c r s.controller_heartbeat_dict) (keys s.controller_heartbeat_dict)
    → round c r s ≡ (
      none,
      record s { run_flag = if is_nil s.controller_heartbeat_dict then false else s.run_flag },
    )
timeout_alive c r s off n h =
    let d = s.controller_heartbeat_dict in
    round-returns c r s _ n (
      timeout-after c r s (ok tt, d) off (for_keys-All c r d (keys d) h)
      ∙ unfold after_loop stop_if_all_down in refl)

-- After a poll timeout while the distribution is off, with some controller expired, the first
-- expired one in the order of the dict is removed, and no other; the round counts an exception, and
-- it does not look whether all controllers are down.
pub timeout_expired :
    (c : Config) (r : Round) (s : MasterState) (before : List Text) (name : Text)
    (behind : List Text)
    → s.task_distribution ≡ false
    → r.recv_data ≡ none
    → keys s.controller_heartbeat_dict ≡ before ++ (name ∷ behind)
    → All (IsAlive c r s.controller_heartbeat_dict) before
    → IsExpired c r s.controller_heartbeat_dict name
    → round c r s ≡ (none, interrupted c r s name)
timeout_expired c r s before name behind off n e h x =
    let d = s.controller_heartbeat_dict in
    round-raises c r s runtime_error _ n (
      timeout-after c r s (err runtime_error, remove name d) off
        (rw e (for_keys-expired c r d before name behind h x))
      ∙ unfold after_loop in refl)
