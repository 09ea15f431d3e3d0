-- ===== src/DeferWork.antt =====
-- internal/deferwork/deferwork.go: the pool that runs deferred work. A goroutine's next action is an
-- event, and a run is a sequence of events in any order. The workers are alike: some wait at the
-- channel, some run a job, some have left their loop. Enqueue holds the read lock from its look at
-- `closed` to its send, so Close, which wants the write lock, waits for the jobs of `sending`.
pub mod Drained
mod Tests
use vault.Common.{
  ℕ, zero, suc, ◌+◌, ◌%◌, ◌^◌, Bool, true, false, ◌&&◌, not, Option, none, some, List, [], ◌∷◌,
  ◌++◌, ◌==◌, ltb, if◌then◌else◌, length, ◌≡◌,
}

-- `accepted` and `finished` record, for the theorems, what was sent to the channel and what has run.
-- A send on a closed channel panics.
pub record Dispatcher (J : Type 0) : Type 0 where
  pub queue : List J
  pub queue_depth : ℕ
  pub queue_closed : Bool
  pub sending : List J
  pub closed : Bool
  pub canceled : Bool
  pub dropped : ℕ
  pub idle : ℕ
  pub running : List J
  pub exited : ℕ
  pub panicked : Bool
  pub accepted : List J
  pub finished : List J

abbrev pub at_least_one : ℕ → ℕ
at_least_one n = if ltb n 1 then 1 else n

unfoldable pub new : {J : Type 0} → (workers queue_depth : ℕ) → Dispatcher J
new workers queue_depth = record {
  queue = [];
  queue_depth = at_least_one queue_depth;
  queue_closed = false;
  sending = [];
  closed = false;
  canceled = false;
  dropped = 0;
  idle = at_least_one workers;
  running = [];
  exited = 0;
  panicked = false;
  accepted = [];
  finished = [];
}

-- Any member of a list, by its index, and the others.
abbrev and_skip {ℓ} : {A : Type ℓ} → A → Option (A × List A) → Option (A × List A)
and_skip x none = none
and_skip x (some (y, rest)) = some (y, x ∷ rest)

abbrev pub take_at {ℓ} : {A : Type ℓ} → ℕ → List A → Option (A × List A)
take_at n [] = none
take_at zero (x ∷ xs) = some (x, xs)
take_at (suc n) (x ∷ xs) = and_skip x (take_at n xs)

abbrev pub has_none {ℓ} : {A : Type ℓ} → List A → Bool
has_none [] = true
has_none (x ∷ xs) = false

pub data Event (J : Type 0) : Type 0 where
  -- Enqueue up to the test of `closed`, and its select.
  enters : Option J → Event J
  sends : ℕ → Event J
  -- Close: the flag, the channel, and its return, at the end of the work or of the deadline.
  marks : Event J
  closes : Event J
  returns : (deadline : Bool) → Event J
  -- A worker takes a job, is done with one, or leaves its loop.
  receives : Event J
  completes : ℕ → Event J
  leaves : Event J

module _ {J : Type 0} where
  unfoldable pub enter : Option J → Dispatcher J → Dispatcher J
  enter none d = d
  enter (some job) d = if d.closed then d else record d { sending = job ∷ d.sending }

  unfoldable pub send : J → List J → Dispatcher J → Dispatcher J
  send job others d =
      if d.queue_closed
      then record d { sending = others; panicked = true }
      else if ltb (length d.queue) d.queue_depth
      then record d { sending = others; queue = d.queue ++ job ∷ []; accepted = job ∷ d.accepted }
      else record d { sending = others; dropped = (d.dropped + 1) % 2 ^ 64 }

  -- Close's first part runs once, under the write lock.
  unfoldable pub mark : Dispatcher J → Option (Dispatcher J)
  mark d = if has_none d.sending && not d.closed then some (record d { closed = true }) else none

  unfoldable pub close_queue : Dispatcher J → Option (Dispatcher J)
  close_queue d =
      if d.closed && not d.queue_closed then some (record d { queue_closed = true }) else none

  -- All workers have left: wg.Wait returns.
  abbrev pub is_drained : Dispatcher J → Bool
  is_drained d = d.idle == 0 && has_none d.running

  unfoldable pub return_from_close : Bool → Dispatcher J → Option (Dispatcher J)
  return_from_close deadline d = elim (d.queue_closed) [
    | false ↦ none
    | true ↦
        if is_drained d
        then some (record d { canceled = true })
        else if deadline
        then some (record d { canceled = true })
        else none
  ]

  abbrev received : Dispatcher J → ℕ → List J → Option (Dispatcher J)
  received d zero jobs = none
  received d (suc waiting) [] = none
  received d (suc waiting) (job ∷ jobs) =
      some (record d { idle = waiting; queue = jobs; running = job ∷ d.running })

  unfoldable pub receive : Dispatcher J → Option (Dispatcher J)
  receive d = received d d.idle d.queue

  abbrev left : Dispatcher J → ℕ → List J → Option (Dispatcher J)
  left d zero jobs = none
  left d (suc waiting) (job ∷ jobs) = none
  left d (suc waiting) [] =
      if d.queue_closed then some (record d { idle = waiting; exited = suc d.exited }) else none

  unfoldable pub leave : Dispatcher J → Option (Dispatcher J)
  leave d = left d d.idle d.queue

  abbrev completed : Dispatcher J → Option (J × List J) → Option (Dispatcher J)
  completed d none = none
  completed d (some (job, others)) =
      some (record d { idle = suc d.idle; running = others; finished = job ∷ d.finished })

  unfoldable pub complete : ℕ → Dispatcher J → Option (Dispatcher J)
  complete n d = completed d (take_at n d.running)

  abbrev sent : Dispatcher J → Option (J × List J) → Option (Dispatcher J)
  sent d none = none
  sent d (some (job, others)) = some (send job others d)

  -- `none` where the event cannot happen.
  unfoldable pub step : Event J → Dispatcher J → Option (Dispatcher J)
  unfolding enter send mark close_queue return_from_close receive complete leave
  step (enters job) d = some (enter job d)
  step (sends n) d = sent d (take_at n d.sending)
  step marks d = mark d
  step closes d = close_queue d
  step (returns deadline) d = return_from_close deadline d
  step receives d = receive d
  step (completes n) d = complete n d
  step leaves d = leave d

  pub data Reach (start : Dispatcher J) : Dispatcher J → Type 0 where
    here : Reach start start
    later :
        {d e : Dispatcher J} → Reach start d → (ev : Event J) → step ev d ≡ some e → Reach start e
