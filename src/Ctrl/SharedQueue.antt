-- ===== src/Ctrl/SharedQueue.antt =====
-- ctrl/shared_queue.py and ctrl/shared_queue_str.py: a queue between processes. It is modelled as
-- the list of its items, as the accesses under its lock see it; a blocking `get` on an empty
-- queue is `none`. `is_set` is the truth value of an item.
pub mod Order
use cyclone_distributed_task.Prelude.{
  Bool, true, false, not, Option, none, some, List, [], ◌∷◌, ◌++◌, is_nil,
}
use cyclone_distributed_task.Py.Result.{Result, ok, err, runtime_error, ◌>>=◌, ◌>>◌, raise_if}

pub record SharedQueue (A : Type 0) : Type 0 where
  pub items : List A

module _ {A : Type 0} where
  -- `SharedQueue()`
  abbrev pub empty : SharedQueue A
  empty = record { items = [] }

  abbrev pub is_empty : SharedQueue A → Bool
  is_empty q = is_nil q.items

  -- `self._queue.put(item)`
  abbrev put : SharedQueue A → A → SharedQueue A
  put q item = record { items = q.items ++ item ∷ [] }

  put_all : SharedQueue A → List A → SharedQueue A
  put_all q [] = q
  put_all q (item ∷ rest) = put_all (put q item) rest

  unfoldable pub fill : List A → SharedQueue A → Result (SharedQueue A)
  unfolding put_all
  fill in_list q = do
    raise_if (is_nil in_list) runtime_error
    raise_if (not (is_empty q)) runtime_error
    ok (put_all q in_list)

  clear_items : List A → List A
  clear_items [] = []
  clear_items (item ∷ rest) = clear_items rest

  -- the loop gets one item in each round
  unfoldable pub clear : SharedQueue A → SharedQueue A
  unfolding clear_items
  clear q = record { items = clear_items q.items }

  unfoldable pub push : (A → Bool) → A → SharedQueue A → Result (SharedQueue A)
  push is_set item q = do raise_if (not (is_set item)) runtime_error; ok (put q item)

  abbrev pub first_of_items : List A → Option A × SharedQueue A
  first_of_items [] = (none, record { items = [] })
  first_of_items (item ∷ rest) = (some item, record { items = rest })

  unfoldable pub pop_nowait : SharedQueue A → Option A × SharedQueue A
  pop_nowait q = first_of_items q.items

  unfoldable pub pop : SharedQueue A → Option (A × SharedQueue A)
  pop q = elim q.items [ [] ↦ none | item ∷ rest ↦ some (item, record { items = rest }) ]
