-- ===== src/Task/Io/Block.antt =====
-- task/lustre_io_task.py: the payload, writing the file block by block and reading it back. What the file system
-- and the clock answer is an input; a file is its bytes, and the payload is ASCII, whose bytes are its characters.
use cyclone_distributed_task.Prelude.{
  ℕ, zero, suc, ◌==◌, text_eq, Option, none, some, List, [], ◌∷◌, ◌++◌, Text, ℤ, pos, negsuc, codes,
  is_nil, length, take, drop, if◌then◌else◌, int_ltb, int_eq, ◌+◌,
}
use cyclone_distributed_task.Py.Result.{Result, ok, err, runtime_error}
use cyclone_distributed_task.Py.Exec.{Exec, pure, lift, gets, modify, ◌>>=◌, ◌>>◌}
use cyclone_distributed_task.Py.Number.{rounds, quotient, remainder, replicate}
use cyclone_distributed_task.Py.Utf8.{text_of}
use cyclone_distributed_task.Task.Io.{Floats, IoTask}

-- What a run changes: the payload attributes, the file at the path of the test, the texts sent to the proxy with
-- their endpoints, and the mails sent with their subject and text.
pub record IoState : Type 0 where
  pub payload_block : Text
  pub payload_rest_block : Text
  pub file : Option Text
  pub sent : List (Text × Text)
  pub mails : List (Text × Text)

-- The answers of the file system and the clock to a write. The call `write` with number `i` answers `accepts i`.
pub record WriteAnswers (fl : Floats) : Type 0 where
  pub opens : Result (Unit {0})
  pub accepts : ℕ → Result (Unit {0})
  pub syncs : Result (Unit {0})
  pub starts : fl.Float
  pub ends : fl.Float

pub record ReadAnswers (fl : Floats) : Type 0 where
  pub opens : Result (Unit {0})
  pub delivers : ℕ → Result (Unit {0})
  pub starts : fl.Float
  pub ends : fl.Float

-- `"".join('A' for i in range(n))`
unfoldable pub payload : ℤ → Text
payload n = replicate (rounds n) b'A'

-- `if block_rest_size_bytes > 0: …`
unfoldable pub payload_rest : ℤ → Text → Text
unfolding payload
payload_rest rest old = if int_ltb (pos 0) rest then payload rest else old

-- `_initialize_payload`
unfoldable pub initialize_payload : IoTask → Exec IoState (Unit {0})
unfolding payload payload_rest
initialize_payload t = do
  modify (λ s. record s { payload_block = payload t.block_size_bytes })
  rest ← lift (remainder t.total_size_bytes t.block_size_bytes)
  modify (λ s. record s { payload_rest_block = payload_rest rest s.payload_rest_block })

abbrev pub chunks : ℕ → Text → Text → List Text
chunks iterations block rest = replicate iterations block ++ (if is_nil rest then [] else rest ∷ [])

abbrev pub write_to : Text → IoState → IoState
write_to chunk s = record s { file = some (elim s.file [ none ↦ chunk | some old ↦ old ++ chunk ]) }

-- The calls `file_handle.write`, from the one with number `i`
unfoldable pub write_all : (ℕ → Result (Unit {0})) → ℕ → List Text → Exec IoState (Unit {0})
write_all accepts i [] s = (ok tt, s)
write_all accepts i (chunk ∷ rest) s =
    (do lift (accepts i); modify (write_to chunk); write_all accepts (suc i) rest) s

-- `throughput = 0; if duration: throughput = total / duration`
unfoldable pub throughput : (fl : Floats) → ℤ → fl.Float → fl.Float
throughput fl total duration =
    if fl.is_zero duration then fl.of_int (pos 0) else fl.per total duration

unfoldable pub measured : (fl : Floats) → ℤ → fl.Float → fl.Float → fl.Float × fl.Float
unfolding throughput
measured fl total starts ends =
    let duration = fl.elapsed starts ends in (duration, throughput fl total duration)

-- `tuple((-1, -1))`
abbrev pub no_measure : (fl : Floats) → fl.Float × fl.Float
no_measure fl = (fl.of_int (negsuc 0), fl.of_int (negsuc 0))

-- `try: … except Exception: return default`
abbrev pub or_default : {A : Type 0} → Exec IoState A → A → Exec IoState A
or_default m default s = let (r, after) = m s in (ok (elim r [ ok a ↦ a | err _ ↦ default ]), after)

-- The block under `with open(file_path, 'w')`, and what it is measured with
unfoldable pub write_open :
    (fl : Floats) → WriteAnswers fl → IoTask → List Text → Exec IoState (fl.Float × fl.Float)
unfolding write_all measured
write_open fl a t chunks = do
  lift a.opens
  modify (λ s. record s { file = some [] })
  write_all a.accepts 0 chunks
  lift (if t.write_file_sync == codes "on" then a.syncs else ok tt)
  pure (measured fl t.total_size_bytes a.starts a.ends)

-- The body of `_write_file`
unfoldable pub write_blocks :
    (fl : Floats) → WriteAnswers fl → IoTask → Exec IoState (fl.Float × fl.Float)
write_blocks fl a t = do
  iterations ← lift (quotient t.total_size_bytes t.block_size_bytes)
  block ← gets (λ s. s.payload_block)
  rest ← gets (λ s. s.payload_rest_block)
  write_open fl a t (chunks (rounds iterations) block rest)

-- `_write_file`
unfoldable pub write_file :
    (fl : Floats) → WriteAnswers fl → IoTask → Exec IoState (fl.Float × fl.Float)
unfolding write_blocks
write_file fl a t = or_default (write_blocks fl a t) (no_measure fl)

-- `file_handle.read(n)`: the text read and what is left. A negative `n` reads all.
unfoldable pub read_block : ℤ → Text → Text × Text
read_block (pos n) left = (take n left, drop n left)
read_block (negsuc n) left = (left, [])

-- The calls of `read` from the one with number `i`, up to the first that gives nothing, and the characters read.
-- `none` means that the fuel ran out; more than the characters left are enough.
unfoldable pub read_loop : ℕ → (ℕ → Result (Unit {0})) → ℤ → ℕ → ℕ → Text → Option (Result ℕ)
unfolding read_block
read_loop zero delivers n i total left = none
read_loop (suc fuel) delivers n i total left =
    let (chunk, after) = read_block n left in
    let rest = read_loop fuel delivers n (suc i) (total + length chunk) after in
    elim (delivers i) [
      | err e ↦ some (err e)
      | ok _ ↦ if is_nil chunk then some (ok total) else rest
    ]

unfoldable pub read_all : (ℕ → Result (Unit {0})) → ℤ → Text → Result ℕ
unfolding read_loop
read_all delivers n content = elim (read_loop (suc (length content)) delivers n 0 0 content) [
  | none ↦ err runtime_error
  | some r ↦ r
]

and_read : Result (Unit {0}) → Result ℕ → Result ℕ
and_read (ok _) r = r
and_read (err e) r = err e

-- `if total_read_bytes != self.total_size_bytes: raise …`, and the measures
and_total : (fl : Floats) → ReadAnswers fl → IoTask → Result ℕ → Result (fl.Float × fl.Float)
unfolding measured
and_total fl a t (err e) = err e
and_total fl a t (ok n) =
    if pos n == t.total_size_bytes
    then ok (measured fl t.total_size_bytes a.starts a.ends)
    else err runtime_error

-- The text of the file, read in blocks
abbrev pub read_text : (ℕ → Result (Unit {0})) → ℤ → Result Text → Result ℕ
read_text delivers n (ok text) = read_all delivers n text
read_text delivers n (err e) = err e

-- The body of `_read_file` for the bytes of the file, if there is one: `getsize` counts bytes and `len` counts
-- characters.
unfoldable pub read_blocks :
    (fl : Floats) → ReadAnswers fl → IoTask → Option Text → Result (fl.Float × fl.Float)
unfolding read_all and_read and_total
read_blocks fl a t none = err runtime_error
read_blocks fl a t (some content) =
    if pos (length content) == t.total_size_bytes
    then and_total fl a t
        (and_read a.opens (read_text a.delivers t.block_size_bytes (text_of content)))
    else err runtime_error

-- `_read_file`
unfoldable pub read_file :
    (fl : Floats) → ReadAnswers fl → IoTask → Exec IoState (fl.Float × fl.Float)
unfolding read_blocks
read_file fl a t = or_default (λ s. (read_blocks fl a t s.file, s)) (no_measure fl)
