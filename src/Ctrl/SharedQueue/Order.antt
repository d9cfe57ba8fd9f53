-- ===== src/Ctrl/SharedQueue/Order.antt =====
-- What `clear` and `fill` of ctrl/shared_queue.py leave in a queue, under its lock.
use cyclone_distributed_task.Prelude.{◌≡◌, ap, refl, List, [], ◌∷◌, ◌++◌, append_assoc, append-nil}
use cyclone_distributed_task.Py.Result.{ok}
use cyclone_distributed_task.Ctrl.SharedQueue.{
  SharedQueue, empty, put_all, fill, clear, clear_items,
}

module _ {A : Type 0} where
  put_all-items : (l : List A) (q : SharedQueue A) → put_all q l ≡ record { items = q.items ++ l }
  unfolding put_all
  put_all-items [] q = rw append-nil
  put_all-items (x ∷ l) q = rw (put_all-items l _) (rw append_assoc)

  clear_items-nil : (l : List A) → clear_items l ≡ []
  unfolding clear_items
  clear_items-nil [] = refl
  clear_items-nil (x ∷ l) = clear_items-nil l

  pub clear-items : (q : SharedQueue A) → clear q ≡ empty
  unfolding clear
  clear-items q = ap (λ l. record { items = l }) (clear_items-nil q.items)

  pub fill-items : (x : A) (l : List A) → fill (x ∷ l) empty ≡ ok (record { items = x ∷ l })
  unfolding fill
  fill-items x l = ap ok (put_all-items (x ∷ l) empty)
