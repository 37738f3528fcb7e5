-- ===== src/ItemQueue.antt =====
-- `TarItem` and `ItemQueue` of src/tree.cpp, the bounded queue between the thread that reads the
-- archive and the one that ingests its items. A call that waits on the condition variable is
-- `none`; the mutex makes each call one step.
pub mod Pipeline
use nix_tarmac.Base.{
  ℕ, zero, suc, ◌+◌, ◌-◌, ◌^◌, ◌*◌, Bool, true, false, not, ◌&&◌, ◌||◌, Option, none, some, List,
  [], ◌∷◌, ◌++◌, ltb, leb, if◌then◌else◌, length,
}
use nix_tarmac.Base.Bytes.{Bytes}
use nix_tarmac.Base.Result.{Error, Result, ok, err, runtime_error}

-- The field `data` of the source is `payload`.
pub record TarItem : Type 0 where
  pub path : Bytes
  pub type : ℕ
  pub payload : Bytes

pub record ItemQueue : Type 0 where
  pub items : List TarItem
  pub bytes : ℕ
  pub done : Bool
  pub closed : Bool
  pub error : Option Error

abbrev pub max_items : ℕ
max_items = 512

abbrev pub max_bytes : ℕ
max_bytes = 128 * 2 ^ 20

abbrev pub empty_queue : ItemQueue
empty_queue = record { items = []; bytes = 0; done = false; closed = false; error = none }

abbrev pub is_empty : List TarItem → Bool
is_empty [] = true
is_empty (x ∷ xs) = false

-- What `push` waits for.
pub push_ready : ItemQueue → TarItem → Bool
push_ready q item =
    q.closed
    || is_empty q.items
    || (ltb (length q.items) max_items && leb (q.bytes + length item.payload) max_bytes)

pub push : ItemQueue → TarItem → Option (Result ItemQueue)
push q item =
    if push_ready q item
    then some (
        if q.closed
        then err runtime_error
        else ok
            (record q { bytes = q.bytes + length item.payload; items = q.items ++ (item ∷ []) }))
    else none

pub close : ItemQueue → ItemQueue
close q = record q { closed = true }

-- The answer `some none` is `return false`.
pop_front : List TarItem → ItemQueue → Option (Option (TarItem × ItemQueue))
pop_front [] q = if q.done then some none else none
pop_front (out ∷ rest) q =
    some (some (out, record q { items = rest; bytes = q.bytes - length out.payload }))

pub pop : ItemQueue → Option (Option (TarItem × ItemQueue))
unfolding pop_front
pop q = pop_front q.items q

pub finish : Option Error → ItemQueue → ItemQueue
finish error q = record q { done = true; error = error }
