-- ===== src/Task/Io/RoundTrip.antt =====
-- What a run of writes leaves in the file, and that reading it back succeeds.
use cyclone_distributed_task.Prelude.{
  some, if◌then◌else◌, int_eq, ℕ, zero, suc, ◌+◌, ◌*◌, ◌/◌, ◌%◌, ◌≡◌, List, [], ◌∷◌, ◌++◌, Text,
  pos, arith, ◌∙◌, ap, refl, true, false, append_assoc, append-nil, Bool, lt→ltb, ◌≢◌, length, ◌==◌,
  eq_iff,
}
use cyclone_distributed_task.Py.Result.{Result, ok}
use cyclone_distributed_task.Py.Number.{replicate, quotient, remainder, length-replicate}
use cyclone_distributed_task.Task.Io.Block.{
  IoState, WriteAnswers, initialize_payload, payload_rest, chunks, write_all, write_blocks,
  write_file, measured, write_open, ReadAnswers, read_file,
}
use cyclone_distributed_task.Task.Io.Reading.{Delivers, read_file-eq}
use cyclone_distributed_task.Py.Utf8.{text_of-letters}
use cyclone_distributed_task.Task.Io.{Floats, IoTask}
use native.Mathlib.Nat

replicate-eq {ℓ} : {A : Type ℓ} (m n : ℕ) (a : A) → m ≡ n → replicate m a ≡ replicate n a
replicate-eq m n a e = ap (λ k. replicate k a) e

replicate-add {ℓ} :
    {A : Type ℓ} (m n : ℕ) (a : A) → replicate m a ++ replicate n a ≡ replicate (m + n) a
replicate-add zero n a = replicate-eq n (0 + n) a (omega arith)
replicate-add (suc m) n a =
    ap (λ xs. a ∷ xs) (replicate-add m n a) ∙ replicate-eq (suc (m + n)) (suc m + n) a (omega arith)

abbrev concat : List Text → Text
concat [] = []
concat (chunk ∷ rest) = chunk ++ concat rest

abbrev pub with_file : Text → IoState → IoState
with_file content s = record s { file = some content }

-- The accepted writes append their texts in order.
write_all-appends :
    (accepts : ℕ → Result (Unit {0})) (i : ℕ) (chunks : List Text) (old : Text) (s : IoState)
    → Delivers accepts
    → write_all accepts i chunks (with_file old s) ≡ (ok tt, with_file (old ++ concat chunks) s)
unfolding write_all
write_all-appends accepts i [] old s all = rw (append-nil old) refl
write_all-appends accepts i (chunk ∷ rest) old s all = rw (all i) (
    write_all-appends accepts (suc i) rest (old ++ chunk) s all
    ∙ ap (λ text. (ok tt, with_file text s)) (append_assoc old chunk (concat rest)))

concat-chunks :
    (iterations block rest : ℕ)
    → concat (chunks iterations (replicate block b'A') (replicate rest b'A'))
      ≡ replicate (iterations * block + rest) b'A'
concat-chunks zero block zero = replicate-eq 0 (0 * block + 0) b'A' (omega arith)
concat-chunks zero block (suc rest) =
    ap (λ text. b'A' ∷ text) (append-nil (replicate rest b'A'))
    ∙ replicate-eq (suc rest) (0 * block + suc rest) b'A' (omega arith)
concat-chunks (suc iterations) block rest =
    ap (λ text. replicate block b'A' ++ text) (concat-chunks iterations block rest)
    ∙ replicate-add block (iterations * block + rest) b'A'
    ∙ replicate-eq (block + (iterations * block + rest)) (suc iterations * block + rest) b'A'
        (grind arith)

-- The payload attributes, as `_initialize_payload` leaves them on a new task object
pub record HasPayload (block total : ℕ) (s : IoState) : Type 0 where
  pub block_set : s.payload_block ≡ replicate (suc block) b'A'
  pub rest_set : s.payload_rest_block ≡ replicate (total % suc block) b'A'

payload_rest-replicate : (n : ℕ) → payload_rest (pos n) [] ≡ replicate n b'A'
unfolding payload_rest
payload_rest-replicate zero = refl
payload_rest-replicate (suc n) = rw (lt→ltb 0 (suc n) (omega arith)) refl

-- The state after `_initialize_payload`
abbrev pub loaded : ℕ → ℕ → IoState → IoState
loaded block total s = record s {
  payload_block = replicate (suc block) b'A';
  payload_rest_block = replicate (total % suc block) b'A';
}

pub loaded-HasPayload :
    (block total : ℕ) (s : IoState) → HasPayload block total (loaded block total s)
loaded-HasPayload block total s = record { block_set = refl; rest_set = refl }

pub initialize_payload-loaded :
    (t : IoTask) (block total : ℕ) (s : IoState)
    → t.block_size_bytes ≡ pos (suc block)
    → t.total_size_bytes ≡ pos total
    → s.payload_rest_block ≡ []
    → initialize_payload t s ≡ (ok tt, loaded block total s)
unfolding initialize_payload remainder
initialize_payload-loaded t block total s eb et fresh =
    simp (eb, et, fresh, payload_rest-replicate (total % suc block))

chunks_sum : (block total : ℕ) → total / suc block * suc block + total % suc block ≡ total
chunks_sum block total = Nat.div-add-mod' total (suc block)

-- All calls of a write answer without an exception.
pub record Accepts {fl : Floats} (a : WriteAnswers fl) : Type 0 where
  pub opened : a.opens ≡ ok tt
  pub accepted : Delivers a.accepts
  pub synced : a.syncs ≡ ok tt

pub pos_suc : (n : ℕ) → pos (suc n) ≢ pos 0
pos_suc n = cc

pub size-replicate :
    (t : IoTask) (total : ℕ)
    → t.total_size_bytes ≡ pos total
    → pos (length {A = ℕ} (replicate total b'A')) == t.total_size_bytes ≡ true
size-replicate t total et = rw et (
    (eq_iff (pos (length {A = ℕ} (replicate total b'A'))) (pos total)).1
      (ap pos (length-replicate total b'A')))

sync_answer : (b : Bool) → (if b then ok tt else ok tt) ≡ (let r : Result (Unit {0}) = ok tt in r)
sync_answer true = refl
sync_answer false = refl

write_open-file :
    (fl : Floats) (a : WriteAnswers fl) (t : IoTask) (chunks : List Text) (s : IoState)
    → Accepts a
    → write_open fl a t chunks s
      ≡ (ok (measured fl t.total_size_bytes a.starts a.ends), with_file (concat chunks) s)
unfolding write_open
write_open-file fl a t chunks s all =
    simp
      (all.opened, all.synced, write_all-appends a.accepts 0 chunks [] s all.accepted, sync_answer)

-- What is in the file: the payload for the total size
content_written :
    (block total : ℕ) (s : IoState)
    → HasPayload block total s
    → concat (chunks (total / suc block) s.payload_block s.payload_rest_block)
      ≡ replicate total b'A'
content_written block total s has =
    rw (has.block_set, has.rest_set)
      (concat-chunks (total / suc block) (suc block) (total % suc block)
        ∙ replicate-eq _ _ b'A' (chunks_sum block total))

pub write_file-file :
    (fl : Floats) (a : WriteAnswers fl) (t : IoTask) (block total : ℕ) (s : IoState)
    → t.block_size_bytes ≡ pos (suc block)
    → t.total_size_bytes ≡ pos total
    → HasPayload block total s
    → Accepts a
    → write_file fl a t s
      ≡ (ok (measured fl t.total_size_bytes a.starts a.ends), with_file (replicate total b'A') s)
unfolding write_file write_blocks quotient
write_file-file fl a t block total s eb et has all = simp (
  eb,
  et,
  write_open-file fl a t (chunks (total / suc block) s.payload_block s.payload_rest_block) s all,
  content_written block total s has,
)

-- Where the block size is positive, the total size is not negative and the file system raises nothing, a new task
-- writes exactly the total size: reading the file back in blocks finds all bytes, and both steps give their
-- measures, never the pair (-1, -1) of a failure.
pub read_file-write_file :
    (fl : Floats) (w : WriteAnswers fl) (a : ReadAnswers fl) (t : IoTask) (block total : ℕ)
    (s : IoState)
    → t.block_size_bytes ≡ pos (suc block)
    → t.total_size_bytes ≡ pos total
    → s.payload_rest_block ≡ []
    → Accepts w
    → a.opens ≡ ok tt
    → Delivers a.delivers
    → let ready = (initialize_payload t s).1 in
      let (written, after) = write_file fl w t ready in
      (written ≡ ok (measured fl t.total_size_bytes w.starts w.ends))
      × (after.file ≡ some (replicate total b'A'))
      × (read_file fl a t after ≡ (ok (measured fl t.total_size_bytes a.starts a.ends), after))
read_file-write_file fl w a t block total s eb et fresh accepts opens delivers =
    let ready = loaded block total s in
    rw
      (
        initialize_payload-loaded t block total s eb et fresh,
        write_file-file fl w t block total ready eb et (loaded-HasPayload block total s) accepts,
      )
      (
        refl,
        refl,
        read_file-eq fl a t (with_file (replicate total b'A') ready) (rw eb (pos_suc block)) opens
              delivers
            ∙ simp (size-replicate t total et, text_of-letters total),
      )
