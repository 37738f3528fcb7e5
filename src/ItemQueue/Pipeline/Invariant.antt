-- ===== src/ItemQueue/Pipeline/Invariant.antt =====
-- What holds whenever the two threads have run for a while.
use nix_tarmac.Base.{
  ℕ, ◌+◌, ◌≤◌, ◌≡◌, true, false, Option, none, some, List, [], ◌∷◌, ◌++◌, length, arith,
  append_assoc, append-nil, length-append, ◌⊎◌,
}
use nix_tarmac.Base.Result.{Error, ok, err}
use nix_tarmac.ItemQueue.{
  TarItem, ItemQueue, push, pop, close, finish, push_ready, max_items, max_bytes,
}
use nix_tarmac.ItemQueue.Pipeline.{
  finished, stopped, bailed, Threads, start, Step, pushes, push_throws, finishes, pops, pops_false,
  applies, apply_throws, Reach, here, next,
}

abbrev pub total : List TarItem → ℕ
total [] = 0
total (x ∷ xs) = length x.payload + total xs

total-append : (xs ys : List TarItem) → total (xs ++ ys) ≡ total xs + total ys
total-append [] ys = omega arith
total-append (x ∷ xs) ys = omega (arith, total-append xs ys)

-- The queue counts its bytes, and holds no more than its limits unless it holds one item alone.
pub record QueueInv (q : ItemQueue) : Type 0 where
  pub counted : q.bytes ≡ total q.items
  pub few : length q.items ≤ max_items
  pub small : (q.bytes ≤ max_bytes) ⊎ (length q.items ≤ 1)

pub push-QueueInv :
    (q : ItemQueue) (item : TarItem) (q' : ItemQueue)
    → QueueInv q
    → push q item ≡ some (ok q')
    → QueueInv q'
      × (q'.items ≡ q.items ++ (item ∷ []))
      × (q'.done ≡ q.done)
      × (q.closed ≡ false)
      × (q'.closed ≡ false)
      × (q'.error ≡ q.error)
unfolding push push_ready
push-QueueInv q item q' h e =
    ground (arith, total-append q.items (item ∷ []), length-append q.items (item ∷ []))

pub pop-QueueInv :
    (q : ItemQueue) (item : TarItem) (q' : ItemQueue)
    → QueueInv q
    → pop q ≡ some (some (item, q'))
    → QueueInv q'
      × (q.items ≡ item ∷ q'.items)
      × (q'.done ≡ q.done)
      × (q'.closed ≡ q.closed)
      × (q'.error ≡ q.error)
unfolding pop
pop-QueueInv q item q' h e = ground arith

push_err-closed :
    (q : ItemQueue) (item : TarItem) (e : Error) → push q item ≡ some (err e) → q.closed ≡ true
unfolding push
push_err-closed q item e h = ground arith

pop-none-drained : (q : ItemQueue) → pop q ≡ some none → (q.done ≡ true) × (q.items ≡ [])
unfolding pop
pop-none-drained q h = ground arith

-- `items` is what the archive held at the start, and `ending` how reading it ends.
pub record Inv (items : List TarItem) (ending : Option Error) (t : Threads) : Type 0 where
  pub queue_inv : QueueInv t.queue
  pub kept : t.popped ++ (t.queue.items ++ t.unread) ≡ items
  pub same_ending : t.ending ≡ ending
  pub done_only : t.queue.done ≡ true → t.producer ≡ finished
  pub done_if : t.producer ≡ finished → t.queue.done ≡ true
  pub closed_only : t.queue.closed ≡ true → t.consumer ≡ bailed
  pub closed_if : t.consumer ≡ bailed → t.queue.closed ≡ true
  pub all_read : t.producer ≡ finished → t.queue.closed ≡ false → t.unread ≡ []
  pub told : t.producer ≡ finished → t.queue.closed ≡ false → t.queue.error ≡ ending
  pub drained : t.consumer ≡ stopped → (t.queue.done ≡ true) × (t.queue.items ≡ [])

start-Inv : (items : List TarItem) (ending : Option Error) → Inv items ending (start items ending)
start-Inv items ending = ground arith

module _ {items : List TarItem} {ending : Option Error} where
  Step-Inv : {t u : Threads} → Step t u → Inv items ending t → Inv items ending u
  unfolding finish close
  Step-Inv {t} (pushes item rest q reads some_left e) h =
      let facts = push-QueueInv t.queue item q h.queue_inv e in
      ground (arith, facts, append_assoc t.queue.items (item ∷ []) rest)
  Step-Inv {t} (push_throws item rest e reads some_left r) h =
      ground (arith, push_err-closed t.queue item e r)
  Step-Inv (finishes reads none_left) h = ground arith
  Step-Inv {t} (pops item q waits e) h =
      let facts = pop-QueueInv t.queue item q h.queue_inv e in
      ground (arith, facts, append_assoc t.popped (item ∷ []) (q.items ++ t.unread))
  Step-Inv {t} (pops_false waits e) h = ground (arith, pop-none-drained t.queue e)
  Step-Inv (applies busy) h = ground arith
  Step-Inv (apply_throws busy) h = ground arith

  Reach-Inv : {s t : Threads} → Inv items ending s → Reach s t → Inv items ending t
  Reach-Inv h here = h
  Reach-Inv h (next r st) = Step-Inv st (Reach-Inv h r)

module _ (items : List TarItem) (ending : Option Error) (t : Threads) where
  pub Reach-start-Inv : Reach (start items ending) t → Inv items ending t
  Reach-start-Inv r = Reach-Inv (start-Inv items ending) r

  -- The queue counts the bytes that it holds. It never holds more than `max_items` items, nor more
  -- than `max_bytes` bytes unless they are those of one item.
  pub queue_bounds :
      Reach (start items ending) t
      → (t.queue.bytes ≡ total t.queue.items)
        × (length t.queue.items ≤ max_items)
        × ((t.queue.bytes ≤ max_bytes) ⊎ (length t.queue.items ≤ 1))
  queue_bounds r = let h = Reach-start-Inv r in ground arith

  -- A consumer whose loop has ended has popped every item of the archive, in order, and finds the
  -- exception that ended the reading, if any.
  pub stopped_delivered :
      Reach (start items ending) t
      → t.consumer ≡ stopped
      → (t.popped ≡ items) × (t.queue.error ≡ ending)
  stopped_delivered r e = let h = Reach-start-Inv r in ground (arith, append-nil t.popped, h.kept)
