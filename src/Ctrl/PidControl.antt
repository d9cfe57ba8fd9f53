-- ===== src/Ctrl/PidControl.antt =====
-- ctrl/pid_control.py: the file that keeps a second instance from running. The file is its text, or
-- `none` where it does not exist.
use cyclone_distributed_task.Prelude.{
  ℕ, ◌≡◌, refl, Bool, true, false, Option, none, some, List, [], ◌∷◌, ◌++◌, Text, text_eq, ◌==◌,
  is_nil, if◌then◌else◌, pos, arith, eq_self,
}
use cyclone_distributed_task.Py.Result.{ok, err, runtime_error, io_error}
use cyclone_distributed_task.Py.Exec.{Exec, pure, raise, ◌>>=◌, ◌>>◌}
use cyclone_distributed_task.Py.Str.{split, split-append_sep, Lacks}
use cyclone_distributed_task.Py.Int
use cyclone_distributed_task.Py.Int.RoundTrip.{format-Lacks, format-cons}

-- What the calling process sees: its id, whether the directory of the file exists, the time as text,
-- and which ids have an entry in /proc
pub record Process : Type 0 where
  pub pid : Text
  pub dir_exists : Bool
  pub timestamp : Text
  pub check_process_exits : Text → Bool

abbrev pub Handler : Type 0 → Type 0
Handler = Exec (Option Text)

abbrev first_part : List Text → Text
first_part [] = []
first_part (p ∷ ps) = p

-- `read_pid_from_file`; `none` stands for -1, which is no text.
unfoldable pub read_pid_from_file : Handler (Option Text)
read_pid_from_file none = (ok none, none)
read_pid_from_file (some []) = (err runtime_error, some [])
read_pid_from_file (some (c ∷ content)) =
    (ok (some (first_part (split b';' (c ∷ content)))), some (c ∷ content))

unfoldable pub create_pid_file : Process → Handler Bool
create_pid_file p file =
    if p.dir_exists then (ok true, some (p.pid ++ (b';' ∷ p.timestamp))) else (err io_error, file)

abbrev remove_file : Handler (Unit {0})
remove_file file = (ok tt, none)

lock_known : Process → Option Text → Handler Bool
lock_known p none = create_pid_file p
lock_known p (some pid_from_file) =
    if pid_from_file == p.pid
    then raise runtime_error
    else if p.check_process_exits pid_from_file
    then pure false
    else (do remove_file; create_pid_file p)

unfoldable pub lock : Process → Handler Bool
unfolding lock_known
lock p none = create_pid_file p none
lock p (some content) =
    (do pid_from_file ← read_pid_from_file; lock_known p pid_from_file) (some content)

unlock_known : Process → Option Text → Handler (Unit {0})
unlock_known p none = pure tt
unlock_known p (some pid_from_file) = if pid_from_file == p.pid then remove_file else pure tt

unfoldable pub unlock : Process → Handler (Unit {0})
unfolding unlock_known
unlock p = do pid_from_file ← read_pid_from_file; unlock_known p pid_from_file

-- The file of a process
abbrev pub held : Process → Option Text
held p = some (p.pid ++ (b';' ∷ p.timestamp))

read_written :
    (pid timestamp : Text)
    → is_nil pid ≡ false
    → Lacks b';' pid
    → let file = some (pid ++ (b';' ∷ timestamp)) in read_pid_from_file file ≡ (ok (some pid), file)
unfolding read_pid_from_file
read_written [] timestamp set lacks = cc set
read_written (c ∷ pid) timestamp set lacks =
    rw (split-append_sep b';' (c ∷ pid) timestamp lacks) refl

read-held :
    (n : ℕ) (p : Process)
    → p.pid ≡ Int.format (pos n)
    → read_pid_from_file (held p) ≡ (ok (some p.pid), held p)
read-held n p is_pid = read_written p.pid p.timestamp (rw is_pid is_set) (rw is_pid lacks)
  where
    is_set : is_nil (Int.format (pos n)) ≡ false
    is_set = let (d, t, e) = format-cons (pos n) in rw e refl

    lacks : Lacks b';' (Int.format (pos n))
    lacks = format-Lacks b';' (pos n) (omega arith) (omega arith)

-- A process whose directory exists gets the lock where no file is. While it lives, every process
-- with another id gets no lock, changes nothing by trying, and changes nothing by its `unlock`. The
-- first process's second attempt raises, and its `unlock` removes the file.
pub lock-excludes :
    (n : ℕ) (p q : Process)
    → p.pid ≡ Int.format (pos n)
    → p.dir_exists ≡ true
    → p.pid == q.pid ≡ false
    → q.check_process_exits p.pid ≡ true
    → (lock p none ≡ (ok true, held p))
      × (lock q (held p) ≡ (ok false, held p))
      × (unlock q (held p) ≡ (ok tt, held p))
      × (lock p (held p) ≡ (err runtime_error, held p))
      × (unlock p (held p) ≡ (ok tt, none))
unfolding lock unlock create_pid_file
lock-excludes n p q is_pid exists differ alive =
    let read = read-held n p is_pid in
    simp (exists, read, differ, alive, eq_self p.pid) (refl, refl, refl, refl, refl)
