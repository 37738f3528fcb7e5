-- ===== src/ItemQueue/Pipeline/Runs.antt =====
-- The two threads on an archive with one member.
use nix_tarmac.Base.{◌<◌, ◌≤◌, ◌≡◌, refl, true, false, none, some, List, [], ◌∷◌, length, ◌⊎◌}
use nix_tarmac.Base.Result.{corrupt}
use nix_tarmac.ItemQueue.{TarItem, push_ready, push, pop_front, pop, finish, max_items, max_bytes}
use nix_tarmac.ItemQueue.Pipeline.{
  Threads, start, Step, pushes, finishes, pops, applies, pops_false, Reach, here, next, stopped,
  finished,
}
use nix_tarmac.ItemQueue.Pipeline.Invariant.{queue_bounds, stopped_delivered, total}
use nix_tarmac.ItemQueue.Pipeline.Progress.{CanStep, Ended, progress, steps_left, Step-steps_left}

abbrev member : TarItem
member = record { path = b'a' ∷ []; type = b'r'; payload = 7 ∷ 8 ∷ [] }

abbrev members : List TarItem
members = member ∷ []

-- The reading ends with an exception after the one member.
abbrev at_start : Threads
at_start = start members (some corrupt)

abbrev pushed : Threads
pushed = record at_start {
  queue = record { items = members; bytes = 2; done = false; closed = false; error = none };
  unread = [];
}

first_push : Step at_start pushed
unfolding push push_ready
first_push = pushes member [] pushed.queue refl refl refl

pushed-Reach : Reach at_start pushed
pushed-Reach = next here first_push

abbrev taken : Threads
taken = record pushed {
  queue = record { items = []; bytes = 0; done = true; closed = false; error = some corrupt };
  producer = finished;
  consumer = stopped;
  popped = members;
}

taken-Reach : Reach at_start taken
unfolding pop pop_front finish
taken-Reach =
    next
      (next (next (next pushed-Reach (finishes refl refl)) (pops member taken.queue refl refl))
        (applies refl))
      (pops_false refl refl)

queue_bounds_example :
    (pushed.queue.bytes ≡ total pushed.queue.items)
    × (length pushed.queue.items ≤ max_items)
    × ((pushed.queue.bytes ≤ max_bytes) ⊎ (length pushed.queue.items ≤ 1))
queue_bounds_example = queue_bounds members (some corrupt) pushed pushed-Reach

stopped_delivered_example : (taken.popped ≡ members) × (taken.queue.error ≡ some corrupt)
stopped_delivered_example = stopped_delivered members (some corrupt) taken taken-Reach refl

progress_example : CanStep pushed ⊎ Ended pushed
progress_example = progress members (some corrupt) pushed pushed-Reach

Step-steps_left_example : steps_left pushed < steps_left at_start
Step-steps_left_example = Step-steps_left members (some corrupt) at_start pushed here first_push
