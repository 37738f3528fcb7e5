-- ===== src/ItemQueue/Pipeline.antt =====
-- The two threads of `ingest_archive` around the queue. The producer pushes what `read_items` reads
-- and then calls `finish`, with the exception that ended it if there was one. The consumer pops and
-- applies, and closes the queue if `apply_item` throws.
pub mod Invariant
pub mod Progress
mod Runs
use nix_tarmac.Base.{
  ℕ, ◌+◌, ◌*◌, ◌≡◌, Bool, true, false, Option, none, some, List, [], ◌∷◌, ◌++◌, length,
}
use nix_tarmac.Base.Result.{Error, ok, err}
use nix_tarmac.ItemQueue.{TarItem, ItemQueue, empty_queue, push, pop, close, finish}

pub data Producer : Type 0 where
  reading finished : Producer

-- `stopped` is past the loop of `ingest_archive`, `bailed` is in its `catch (...)`.
pub data Consumer : Type 0 where
  waiting applying stopped bailed : Consumer

-- `unread` is what the archive still holds, `ending` how reading it ends, and `popped` what the
-- consumer has taken, in order.
pub record Threads : Type 0 where
  pub queue : ItemQueue
  pub producer : Producer
  pub consumer : Consumer
  pub unread : List TarItem
  pub ending : Option Error
  pub popped : List TarItem

abbrev pub start : List TarItem → Option Error → Threads
start items ending = record {
  queue = empty_queue;
  producer = reading;
  consumer = waiting;
  unread = items;
  ending = ending;
  popped = [];
}

pub data Step (t : Threads) : Threads → Type 0 where
  pushes :
      (item : TarItem) (rest : List TarItem) (q : ItemQueue)
      → t.producer ≡ reading
      → t.unread ≡ item ∷ rest
      → push t.queue item ≡ some (ok q)
      → Step t (record t { queue = q; unread = rest })
  push_throws :
      (item : TarItem) (rest : List TarItem) (e : Error)
      → t.producer ≡ reading
      → t.unread ≡ item ∷ rest
      → push t.queue item ≡ some (err e)
      → Step t (record t { queue = finish (some e) t.queue; producer = finished })
  finishes :
      t.producer ≡ reading
      → t.unread ≡ []
      → Step t (record t { queue = finish t.ending t.queue; producer = finished })
  pops :
      (item : TarItem) (q : ItemQueue)
      → t.consumer ≡ waiting
      → pop t.queue ≡ some (some (item, q))
      → Step t (record t { queue = q; consumer = applying; popped = t.popped ++ (item ∷ []) })
  pops_false :
      t.consumer ≡ waiting → pop t.queue ≡ some none → Step t (record t { consumer = stopped })
  applies : t.consumer ≡ applying → Step t (record t { consumer = waiting })
  apply_throws :
      t.consumer ≡ applying → Step t (record t { queue = close t.queue; consumer = bailed })

pub data Reach (s : Threads) : Threads → Type 0 where
  here : Reach s s
  next : {t u : Threads} → Reach s t → Step t u → Reach s u
