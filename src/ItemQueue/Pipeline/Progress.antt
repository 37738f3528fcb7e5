-- ===== src/ItemQueue/Pipeline/Progress.antt =====
-- The two threads never wait for one another, and come to an end.
use nix_tarmac.Base.{
  ℕ, ◌+◌, ◌-◌, ◌*◌, ◌<◌, ◌≡◌, ◌≢◌, refl, true, false, Option, none, some, List, [], ◌∷◌, length,
  arith, length-append, ◌⊎◌, inl, inr, Option-cases, List-cases,
}
use nix_tarmac.Base.Result.{Error, ok, err}
use nix_tarmac.ItemQueue.{TarItem, ItemQueue, push, pop, close, finish, push_ready, pop_front}
use nix_tarmac.ItemQueue.Pipeline.{
  Producer, Consumer, reading, finished, waiting, applying, stopped, bailed, Threads, start, Step,
  pushes, push_throws, finishes, pops, pops_false, applies, apply_throws, Reach,
}
use nix_tarmac.ItemQueue.Pipeline.Invariant.{
  Inv, Reach-start-Inv, push-QueueInv, pop-QueueInv, QueueInv,
}

-- Both threads are past their loops.
abbrev pub Ended : Threads → Type 0
Ended t = (t.producer ≡ finished) × ((t.consumer ≡ stopped) ⊎ (t.consumer ≡ bailed))

abbrev pub CanStep : Threads → Type 0
CanStep t = (u : Threads) × Step t u

pop-cons :
    (q : ItemQueue) (item : TarItem) (rest : List TarItem)
    → q.items ≡ item ∷ rest
    → (q' : ItemQueue) × (pop q ≡ some (some (item, q')))
unfolding pop
pop-cons q item rest e =
    (record q { items = rest; bytes = q.bytes - length item.payload }, rw (e, pop_front))

pop-nil : (q : ItemQueue) → q.items ≡ [] → q.done ≡ true → pop q ≡ some none
unfolding pop
pop-nil q e d = ground arith

-- A push that waits finds the queue open and an item in it.
push_waits :
    (q : ItemQueue) (item : TarItem) → push q item ≡ none → (q.closed ≡ false) × (q.items ≢ [])
unfolding push push_ready
push_waits q item h = (ground arith, λ e. ground arith)

module _ (items : List TarItem) (ending : Option Error) (t : Threads) (h : Inv items ending t) where
  -- The consumer can go on if there is an item or the producer is done.
  consumer_step :
      (c : Consumer)
      → t.consumer ≡ c
      → (t.queue.items ≢ []) ⊎ (t.producer ≡ finished)
      → CanStep t ⊎ (t.consumer ≡ stopped) ⊎ (t.consumer ≡ bailed)
  consumer_step waiting e able = elim (List-cases t.queue.items) [
    | inr (first, rest, p) ↦ let (q, o) = pop-cons t.queue first rest p in inl (_, pops first q e o)
    | inl none_left ↦ inl (_, pops_false e (pop-nil t.queue none_left (ground arith)))
  ]
  consumer_step applying e able = inl (_, applies e)
  consumer_step stopped e able = inr (inl e)
  consumer_step bailed e able = inr (inr e)

  blocked_producer :
      (item : TarItem) (rest : List TarItem)
      → t.unread ≡ item ∷ rest
      → t.producer ≡ reading
      → push t.queue item ≡ none
      → CanStep t
  blocked_producer item rest u p blocked =
      let (still_open, held) = push_waits t.queue item blocked in
      elim (consumer_step t.consumer refl (inl held)) [
        | inl step ↦ step
        | inr (inl stops) ↦ absurd (held (h.drained stops).1)
        | inr (inr bails) ↦ absurd (ground (arith, h.closed_if bails))
      ]

  progress_of : (p : Producer) → t.producer ≡ p → CanStep t ⊎ Ended t
  progress_of finished e = elim (consumer_step t.consumer refl (inr e)) [
    | inl step ↦ inl step
    | inr ended ↦ inr (e, ended)
  ]
  progress_of reading e = elim (List-cases t.unread) [
    | inl none_left ↦ inl (_, finishes e none_left)
    | inr (item, rest, u) ↦ elim (Option-cases (push t.queue item)) [
      | inl blocked ↦ inl (blocked_producer item rest u e blocked)
      | inr (ok q, p) ↦ inl (_, pushes item rest q e u p)
      | inr (err x, p) ↦ inl (_, push_throws item rest x e u p)
    ]
  ]

-- No deadlock: until both threads are past their loops, one of them can take a step.
pub progress :
    (items : List TarItem) (ending : Option Error) (t : Threads)
    → Reach (start items ending) t
    → CanStep t ⊎ Ended t
progress items ending t r =
    progress_of items ending t (Reach-start-Inv items ending t r) t.producer refl

abbrev producer_left : Producer → ℕ
producer_left reading = 1
producer_left finished = 0

abbrev consumer_left : Consumer → ℕ
consumer_left applying = 2
consumer_left waiting = 1
consumer_left stopped = 0
consumer_left bailed = 0

pub steps_left : Threads → ℕ
steps_left t =
    3 * length t.unread
    + 2 * length t.queue.items
    + producer_left t.producer
    + consumer_left t.consumer

-- Every step that the two threads take from where a run can be lowers a measure of the work left.
pub Step-steps_left :
    (items : List TarItem) (ending : Option Error) (t u : Threads)
    → Reach (start items ending) t
    → Step t u
    → steps_left u < steps_left t
unfolding steps_left finish close
Step-steps_left items ending t u r st =
    decreases t u (Reach-start-Inv items ending t r).queue_inv st
  where
    decreases : (t u : Threads) → QueueInv t.queue → Step t u → steps_left u < steps_left t
    decreases t u h (pushes item rest q p l e) =
        ground (arith, push-QueueInv t.queue item q h e, length-append t.queue.items (item ∷ []))
    decreases t u h (push_throws item rest e p l o) = ground arith
    decreases t u h (finishes p l) = ground arith
    decreases t u h (pops item q p e) = ground (arith, pop-QueueInv t.queue item q h e)
    decreases t u h (pops_false p e) = ground arith
    decreases t u h (applies p) = ground arith
    decreases t u h (apply_throws p) = ground arith
