-- ===== src/Msg/AssignText.antt =====
-- How the text of an assignment is read (msg/task_assign.py, msg/message_factory.py).
use cyclone_distributed_task.Prelude.{
  ℕ, suc, ◌+◌, ◌≡◌, refl, true, false, Option, none, some, [], ◌∷◌, ◌++◌, arith, Text, length,
  length-append, drop, append_assoc, ltb,
}
use cyclone_distributed_task.Py.Result.{ok}
use cyclone_distributed_task.Py.Str.{split, join, Lacks, split-append_sep, split-join}
use cyclone_distributed_task.Msg.Message.{
  Message, task_assign, field_separator, task_ass, to_string, type_of,
}
use cyclone_distributed_task.Msg.TaskAssign.{header_of, from_text}
use cyclone_distributed_task.Msg.Factory.{create}

abbrev pub assign_of : Text → Text → Text → Option Text → Message
assign_of task_module task_class task_id body = record {
  kind = task_assign;
  header = header_of task_ass task_module task_class task_id;
  body = body;
}

abbrev pub sep : ℕ
sep = field_separator

header_of-append :
    (a m c t s : Text) → header_of a m c t ++ (sep ∷ s) ≡ header_of a m c (t ++ (sep ∷ s))
header_of-append a m c t s = simp append_assoc

drop-behind : (h s : Text) → drop (length h + 1) (h ++ (sep ∷ s)) ≡ s
drop-behind [] s = refl
drop-behind (x ∷ h) s =
    let e : length (x ∷ h) + 1 ≡ suc (length h + 1) = omega arith in rw e (drop-behind h s)

ltb-length_append : (h s : Text) → ltb (length h) (length (h ++ (sep ∷ s))) ≡ true
ltb-length_append h s = ground (arith, length-append {0} h (sep ∷ s))

ltb_self : (n : ℕ) → ltb n n ≡ false
ltb_self n = ground arith

ltb_four : (n : ℕ) → ltb (suc (suc (suc (suc n)))) 4 ≡ false
ltb_four n = ground arith

module _ (m c t : Text) (lm : Lacks field_separator m) (lc : Lacks field_separator c)
    (lt : Lacks field_separator t) where
  abbrev pub header : Text
  header = header_of task_ass m c t

  split-header_append :
      (s : Text) → split sep (header ++ (sep ∷ s)) ≡ task_ass ∷ m ∷ c ∷ t ∷ split sep s
  split-header_append s = rw (
    header_of-append task_ass m c t s,
    split-append_sep sep task_ass (m ++ (sep ∷ (c ++ (sep ∷ (t ++ (sep ∷ s)))))) (omega arith),
    split-append_sep sep m (c ++ (sep ∷ (t ++ (sep ∷ s)))) lm,
    split-append_sep sep c (t ++ (sep ∷ s)) lc,
    split-append_sep sep t s lt,
  )

  pub split-header : split sep header ≡ task_ass ∷ m ∷ c ∷ t ∷ []
  split-header =
      unfold join in split-join sep task_ass (m ∷ c ∷ t ∷ []) (omega arith) (lm, (lc, (lt, tt)))

  from_text-body : (s : Text) → from_text (header ++ (sep ∷ s)) ≡ ok (assign_of m c t (some s))
  unfolding from_text
  from_text-body s =
      rw (split-header_append s)
        (rw ltb_four (rw (ltb-length_append header s) (rw (drop-behind header s))))

  from_text-none : from_text header ≡ ok (assign_of m c t none)
  unfolding from_text
  from_text-none = rw split-header (rw (ltb_self (length header)))

  -- The text of an assignment with a body is read as that assignment.
  pub create-assign_body :
      (d : ℕ) (s : Text)
      → create (to_string (assign_of m c t (some (d ∷ s)))) ≡ ok (assign_of m c t (some (d ∷ s)))
  unfolding create to_string
  create-assign_body d s = rw (split-header_append (d ∷ s)) (from_text-body (d ∷ s))

  pub create-assign_none : create (to_string (assign_of m c t none)) ≡ ok (assign_of m c t none)
  unfolding create to_string
  create-assign_none = rw split-header from_text-none

  -- The type of an assignment
  pub type_of-assign : (body : Option Text) → type_of (assign_of m c t body) ≡ task_ass
  unfolding type_of
  type_of-assign body = rw split-header refl
