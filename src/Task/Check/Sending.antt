-- ===== src/Task/Check/Sending.antt =====
-- task/lustre_file_creation_check_task.py: `execute`, the loop over the MDTs.
use cyclone_distributed_task.Prelude.{true, false, Bool, List, [], ◌∷◌, ◌++◌, Text, ℤ}
use cyclone_distributed_task.Py.Result.{Result, ok}
use cyclone_distributed_task.Py.Exec.{Exec, pure, lift, modify, ◌>>=◌, ◌>>◌}
use cyclone_distributed_task.Prometheus.CreationCheck.{to_string}
use cyclone_distributed_task.Task.Check.{CheckTask, MdtAnswers, check_mdt}

-- The answers for a run. `connects` stands for making the handler too.
pub record CheckAnswers : Type 0 where
  pub is_ost_idx_active : Result Bool
  pub connects : Result (Unit {0})
  pub mdt : ℤ → MdtAnswers
  pub sends : ℤ → Result (Unit {0})

-- What has been sent to the pushgateway client
abbrev pub Sending : Type 0
Sending = Exec (List Text) (Unit {0})

-- The loop over the MDTs
unfoldable pub check_mdts : CheckAnswers → CheckTask → List ℤ → Sending
check_mdts a t [] sent = (ok tt, sent)
check_mdts a t (mdt_idx ∷ rest) sent =
    (do
      check_result ← lift (check_mdt (a.mdt mdt_idx) t mdt_idx)
      lift (a.sends mdt_idx)
      modify (λ texts. texts ++ to_string check_result ∷ [])
      check_mdts a t rest)
      sent

unfoldable pub check_if_active : CheckAnswers → CheckTask → Bool → Sending
unfolding check_mdts
check_if_active a t false = pure tt
check_if_active a t true = do lift a.connects; check_mdts a t t.mdt_index_list

-- The body of the `try` of `execute`
unfoldable pub try_check : CheckAnswers → CheckTask → Sending
unfolding check_if_active
try_check a t = do active ← lift a.is_ost_idx_active; check_if_active a t active

-- `execute`: an exception is logged.
unfoldable pub check : CheckAnswers → CheckTask → Sending
unfolding try_check
check a t sent = (ok tt, (try_check a t sent).1)
