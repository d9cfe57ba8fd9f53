-- ===== src/Task/Io/Reading.antt =====
-- What reading a file back in blocks gives, and that the loop of reads ends.
use cyclone_distributed_task.Prelude.{
  true, none, if◌then◌else◌, ◌==◌, int_eq, ℕ, zero, suc, ◌+◌, ◌<◌, ◌≡◌, some, List, [], ◌∷◌, Text,
  pos, length, take, drop, arith, ◌∙◌, ap, negsuc, ℤ, ◌≢◌, Option, refl, inl, inr, Bool-cases,
}
use cyclone_distributed_task.Py.Result.{err, Result, ok}
use cyclone_distributed_task.Task.Io.Block.{
  read_loop, read_all, read_file, ReadAnswers, read_blocks, IoState, no_measure, measured,
}
use cyclone_distributed_task.Py.Utf8.{text_of}
use cyclone_distributed_task.Task.Io.{Floats, IoTask}

length-take-drop {ℓ} :
    {A : Type ℓ} (n : ℕ) (xs : List A) → length (take n xs) + length (drop n xs) ≡ length xs
length-take-drop zero xs = omega arith
length-take-drop (suc n) [] = omega arith
length-take-drop (suc n) (x ∷ xs) = omega (arith, length-take-drop n xs)

-- The call with every number delivers.
abbrev pub Delivers : (ℕ → Result (Unit {0})) → Type 0
Delivers delivers = (i : ℕ) → delivers i ≡ ok tt

read_loop-sums :
    (fuel : ℕ) (delivers : ℕ → Result (Unit {0})) (b i total : ℕ) (left : Text)
    → Delivers delivers
    → length left < fuel
    → read_loop fuel delivers (pos (suc b)) i total left ≡ some (ok (total + length left))
unfolding read_loop
read_loop-sums zero delivers b i total left all enough = elim enough [ ]
read_loop-sums (suc fuel) delivers b i total [] all enough = rw (read_loop, all i) (ground arith)
read_loop-sums (suc fuel) delivers b i total (c ∷ left) all enough =
    rw (read_loop, all i)
      (read_loop-sums fuel delivers b (suc i) (total + suc (length (take b left))) (drop b left) all
          (omega (arith, length-take-drop b left, enough))
        ∙ ap (λ n. some (ok n)) (omega (arith, length-take-drop b left)))

read_all-whole :
    (delivers : ℕ → Result (Unit {0})) (n : ℕ) (content : Text)
    → Delivers delivers
    → read_all delivers (negsuc n) content ≡ ok (length content)
unfolding read_all read_loop
read_all-whole delivers n [] all = rw (read_all, read_loop, all 0) (ground arith)
read_all-whole delivers n (c ∷ content) all = rw (read_all, read_loop, all 0, all 1) (ground arith)

pub read_all-length :
    (delivers : ℕ → Result (Unit {0})) (n : ℤ) (content : Text)
    → Delivers delivers
    → n ≢ pos 0
    → read_all delivers n content ≡ ok (length content)
unfolding read_all
read_all-length delivers (pos zero) content all nonzero = absurd (nonzero refl)
read_all-length delivers (pos (suc b)) content all nonzero =
    rw (read_all, read_loop-sums (suc (length content)) delivers b 0 0 content all (omega arith))
      (ground arith)
read_all-length delivers (negsuc n) content all nonzero = read_all-whole delivers n content all

-- The measures, if the text has the expected number of characters
abbrev pub measures_of_text :
    (fl : Floats) → ReadAnswers fl → IoTask → Result Text → fl.Float × fl.Float
measures_of_text fl a t (err e) = no_measure fl
measures_of_text fl a t (ok text) =
    if pos (length text) == t.total_size_bytes
    then measured fl t.total_size_bytes a.starts a.ends
    else no_measure fl

-- The measures, if the file is there with the expected size
abbrev pub measures_of_file :
    (fl : Floats) → ReadAnswers fl → IoTask → Option Text → fl.Float × fl.Float
measures_of_file fl a t none = no_measure fl
measures_of_file fl a t (some content) =
    if pos (length content) == t.total_size_bytes
    then measures_of_text fl a t (text_of content)
    else no_measure fl

-- Where the file system raises nothing and the block size is not zero, reading the file back gives the measures
-- exactly if the file is there, its bytes are as many as the total size, they are valid UTF-8, and the characters of their
-- text, with the line ends translated, are as many as the total size too; otherwise it gives the pair (-1, -1). It changes
-- nothing.
pub read_file-eq :
    (fl : Floats) (a : ReadAnswers fl) (t : IoTask) (s : IoState)
    → t.block_size_bytes ≢ pos 0
    → a.opens ≡ ok tt
    → Delivers a.delivers
    → read_file fl a t s ≡ (ok (measures_of_file fl a t s.file), s)
unfolding read_file read_blocks
read_file-eq fl a t s nonzero opens all = go s.file refl
  where
    of_text :
        (content : Text) (text : Result Text)
        → s.file ≡ some content
        → pos (length content) == t.total_size_bytes ≡ true
        → text_of content ≡ text
        → read_file fl a t s ≡ (ok (measures_of_file fl a t s.file), s)
    of_text content (err e) there same decoded = simp (there, same, decoded, opens)
    of_text content (ok text) there same decoded =
        elim (Bool-cases (pos (length text) == t.total_size_bytes)) [
          | inl fits ↦ simp (
            there,
            same,
            decoded,
            opens,
            read_all-length a.delivers t.block_size_bytes text all nonzero,
            fits,
          )
          | inr fails ↦ simp (
            there,
            same,
            decoded,
            opens,
            read_all-length a.delivers t.block_size_bytes text all nonzero,
            fails,
          )
        ]

    go :
        (file : Option Text)
        → s.file ≡ file
        → read_file fl a t s ≡ (ok (measures_of_file fl a t s.file), s)
    go none missing = simp missing
    go (some content) there = elim (Bool-cases (pos (length content) == t.total_size_bytes)) [
      | inl same ↦ of_text content (text_of content) there same refl
      | inr differs ↦ simp (there, differs)
    ]
