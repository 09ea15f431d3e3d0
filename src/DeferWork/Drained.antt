-- ===== src/DeferWork/Drained.antt =====
-- What holds in every state of the pool, and where its shutdown ends (deferwork.go).
use vault.Common.{
  ℕ, zero, suc, ◌+◌, ◌*◌, ◌≤◌, ◌<◌, ◌≡◌, refl, subst, ◌∙◌, arith, Bool, true, false, Option, none,
  some, List, [], ◌∷◌, ◌++◌, if◌then◌else◌, length, length-append, Option-cases, inl, inr,
}
use vault.DeferWork.{
  Dispatcher, Event, enters, sends, marks, closes, returns, receives, completes, leaves, new,
  at_least_one, take_at, has_none, is_drained, enter, send, mark, close_queue, return_from_close,
  receive, leave, complete, step, Reach, here, later,
}

module _ {J : Type 0} (p : J → Bool) where
  -- How many of the jobs pass the test.
  abbrev pub count : List J → ℕ
  count [] = 0
  count (x ∷ xs) = (if p x then 1 else 0) + count xs

  count-append : (xs ys : List J) → count (xs ++ ys) ≡ count xs + count ys
  count-append [] ys = omega arith
  count-append (x ∷ xs) ys = omega (arith, count-append xs ys)

  take_at-count :
      (n : ℕ) (xs : List J) (x : J) (rest : List J)
      → take_at n xs ≡ some (x, rest)
      → (count xs ≡ (if p x then 1 else 0) + count rest) × (length xs ≡ suc (length rest))
  take_at-count n [] x rest h = absurd (ground arith)
  take_at-count zero (y ∷ ys) x rest h = ground arith
  take_at-count (suc n) (y ∷ ys) x rest h = elim (Option-cases (take_at n ys)) [
    | inl gone ↦ absurd (ground (arith, gone))
    | inr ((z, zs), found) ↦ let ih = take_at-count n ys z zs found in ground (arith, found, ih)
  ]

  -- Of w workers. Once the channel is closed no send is under way, and once a worker has left the
  -- queue is empty. Each accepted job is queued, running or finished, and in one place.
  pub record IsSound (w : ℕ) (d : Dispatcher J) : Type 0 where
    pub guarded : d.queue_closed ≡ true → d.closed ≡ true
    pub quiet : d.closed ≡ true → has_none d.sending ≡ true
    pub bounded : length d.queue ≤ d.queue_depth
    pub calm : d.panicked ≡ false
    pub emptied : 0 < d.exited → (has_none d.queue ≡ true) × (d.queue_closed ≡ true)
    pub manned : d.idle + length d.running + d.exited ≡ w
    pub counted : count d.accepted ≡ count d.queue + count d.running + count d.finished

  new-IsSound : (w depth : ℕ) → IsSound (at_least_one w) (new w depth)
  unfolding new
  new-IsSound w depth = ground arith

  enter-IsSound : (w : ℕ) (o : Option J) (d : Dispatcher J) → IsSound w d → IsSound w (enter o d)
  unfolding enter
  enter-IsSound w none d s = s
  enter-IsSound w (some job) d s = ground arith

  send-IsSound :
      (w n : ℕ) (d : Dispatcher J) (job : J) (others : List J)
      → IsSound w d
      → take_at n d.sending ≡ some (job, others)
      → IsSound w (send job others d)
  unfolding send
  send-IsSound w n d job others s h =
      let taken = take_at-count n d.sending job others h in
      ground (arith, taken, count-append d.queue (job ∷ []), length-append {0} d.queue (job ∷ []))

  receive-IsSound : (w : ℕ) (d e : Dispatcher J) → IsSound w d → receive d ≡ some e → IsSound w e
  unfolding receive
  receive-IsSound w d e s h = ground arith

  leave-IsSound : (w : ℕ) (d e : Dispatcher J) → IsSound w d → leave d ≡ some e → IsSound w e
  unfolding leave
  leave-IsSound w d e s h = ground arith

  complete-IsSound :
      (w n : ℕ) (d e : Dispatcher J) → IsSound w d → complete n d ≡ some e → IsSound w e
  unfolding complete
  complete-IsSound w n d e s h = elim (Option-cases (take_at n d.running)) [
    | inl gone ↦ absurd (ground (arith, gone))
    | inr ((job, others), found) ↦
        let taken = take_at-count n d.running job others found in ground (arith, found, taken)
  ]

  step-IsSound :
      (w : ℕ) (ev : Event J) (d e : Dispatcher J) → IsSound w d → step ev d ≡ some e → IsSound w e
  unfolding step
  step-IsSound w (enters o) d e s h =
      let moved : enter o d ≡ e = ground arith in subst (IsSound w) moved (enter-IsSound w o d s)
  step-IsSound w (sends n) d e s h = elim (Option-cases (take_at n d.sending)) [
    | inl gone ↦ absurd (ground (arith, gone))
    | inr ((job, others), found) ↦
        let moved : send job others d ≡ e = ground (arith, found) in
        subst (IsSound w) moved (send-IsSound w n d job others s found)
  ]
  step-IsSound w marks d e s h = unfold mark in ground arith
  step-IsSound w closes d e s h = unfold close_queue in ground arith
  step-IsSound w (returns deadline) d e s h = unfold return_from_close in ground arith
  step-IsSound w receives d e s h = receive-IsSound w d e s h
  step-IsSound w (completes n) d e s h = complete-IsSound w n d e s h
  step-IsSound w leaves d e s h = leave-IsSound w d e s h

  pub Reach-IsSound :
      (w depth : ℕ) (d : Dispatcher J) → Reach (new w depth) d → IsSound (at_least_one w) d
  Reach-IsSound w depth d here = new-IsSound w depth
  Reach-IsSound w depth d (later {d = c} r ev h) =
      step-IsSound (at_least_one w) ev c d (Reach-IsSound w depth c r) h

  queue_depth-step :
      (ev : Event J) (d e : Dispatcher J) → step ev d ≡ some e → e.queue_depth ≡ d.queue_depth
  unfolding step enter send mark close_queue return_from_close receive complete leave
  queue_depth-step (enters none) d e h = ground arith
  queue_depth-step (enters (some j)) d e h = ground arith
  queue_depth-step (sends n) d e h = ground arith
  queue_depth-step marks d e h = ground arith
  queue_depth-step closes d e h = ground arith
  queue_depth-step (returns deadline) d e h = ground arith
  queue_depth-step receives d e h = ground arith
  queue_depth-step (completes n) d e h = ground arith
  queue_depth-step leaves d e h = ground arith

  queue_depth-Reach :
      (w depth : ℕ) (d : Dispatcher J) → Reach (new w depth) d → d.queue_depth ≡ at_least_one depth
  unfolding new
  queue_depth-Reach w depth d here = refl
  queue_depth-Reach w depth d (later {d = c} r ev h) =
      queue_depth-step ev c d h ∙ queue_depth-Reach w depth c r

  -- Whatever the order of the events, no job is sent on the closed channel, which would panic; at most
  -- as many jobs wait as the queue is deep and run as there are workers (both counts being one at
  -- least). When all workers have left, the queue is empty and each job that was accepted has run,
  -- as often as it was accepted: for any test on jobs, as many that pass it were accepted as have run.
  pub drained-finished :
      (w depth : ℕ) (d : Dispatcher J)
      → Reach (new w depth) d
      → (d.panicked ≡ false)
        × (length d.queue ≤ at_least_one depth)
        × (length d.running ≤ at_least_one w)
        × (is_drained d ≡ true → (has_none d.queue ≡ true) × (count d.accepted ≡ count d.finished))
  drained-finished w depth d r =
      let s = Reach-IsSound w depth d r in
      let calm = s.calm in
      let bounded = s.bounded in
      let manned = s.manned in
      let depth_kept = queue_depth-Reach w depth d r in
      (
        calm,
        omega (arith, bounded, depth_kept),
        omega (arith, manned),
        λ done.
            let left : 0 < d.exited = ground (arith, manned) in
            let empty = (s.emptied left).0 in
            let counted = s.counted in (empty, ground (arith, empty, counted)),
      )

-- The events that the workers bring about themselves.
abbrev pub IsWork : {J : Type 0} → Event J → Type 0
IsWork (enters o) = ⊥
IsWork (sends n) = ⊥
IsWork marks = ⊥
IsWork closes = ⊥
IsWork (returns deadline) = ⊥
IsWork receives = Unit
IsWork (completes n) = Unit
IsWork leaves = Unit

-- What is left to do.
abbrev pub work : {J : Type 0} → Dispatcher J → ℕ
work d = 3 * length d.queue + 2 * length d.running + d.idle

module _ {J : Type 0} where
  work-lt : (ev : Event J) (d e : Dispatcher J) → IsWork ev → step ev d ≡ some e → work e < work d
  unfolding step receive complete leave
  work-lt receives d e i h = ground arith
  work-lt (completes n) d e i h = elim (Option-cases (take_at n d.running)) [
    | inl gone ↦ absurd (ground (arith, gone))
    | inr ((job, others), found) ↦
        let taken = take_at-count (λ j. true) n d.running job others found in
        ground (arith, found, taken)
  ]
  work-lt leaves d e i h = ground arith
  work-lt (enters o) d e i h = elim i [ ]
  work-lt (sends n) d e i h = elim i [ ]
  work-lt marks d e i h = elim i [ ]
  work-lt closes d e i h = elim i [ ]
  work-lt (returns deadline) d e i h = elim i [ ]

  work-closed :
      (ev : Event J) (d e : Dispatcher J)
      → IsWork ev
      → step ev d ≡ some e
      → e.queue_closed ≡ d.queue_closed
  unfolding step receive complete leave
  work-closed receives d e i h = ground arith
  work-closed (completes n) d e i h = ground arith
  work-closed leaves d e i h = ground arith
  work-closed (enters o) d e i h = elim i [ ]
  work-closed (sends n) d e i h = elim i [ ]
  work-closed marks d e i h = elim i [ ]
  work-closed closes d e i h = elim i [ ]
  work-closed (returns deadline) d e i h = elim i [ ]

  -- So many actions of the workers lead from one state to another.
  pub data Works (d : Dispatcher J) : ℕ → Dispatcher J → Type 0 where
    rest : Works d 0 d
    act :
        {n : ℕ} {c e : Dispatcher J}
        → Works d n c
        → (ev : Event J) → IsWork ev
        → step ev c ≡ some e
        → Works d (suc n) e

  Works-le : (n : ℕ) (d e : Dispatcher J) → Works d n e → n + work e ≤ work d
  Works-le zero d e rest = omega arith
  Works-le (suc n) d e (act {c = c} w ev i h) = omega (arith, Works-le n d c w, work-lt ev c e i h)

  Works-closed : (n : ℕ) (d e : Dispatcher J) → Works d n e → e.queue_closed ≡ d.queue_closed
  Works-closed zero d e rest = refl
  Works-closed (suc n) d e (act {c = c} w ev i h) = work-closed ev c e i h ∙ Works-closed n d c w

  -- Some worker can act.
  abbrev CanWork : Dispatcher J → Type 0
  CanWork d = (ev : Event J) × (e : Dispatcher J) × IsWork ev × (step ev d ≡ some e)

  CanWork-of : (d : Dispatcher J) (ev : Event J) → IsWork ev → ¬ step ev d ≡ none → CanWork d
  CanWork-of d ev i possible = elim (Option-cases (step ev d)) [
    | inl gone ↦ absurd (possible gone)
    | inr (e, h) ↦ (ev, e, i, h)
  ]

  can_work : (d : Dispatcher J) → d.queue_closed ≡ true → is_drained d ≡ false → CanWork d
  unfolding step receive complete leave
  can_work d closed busy = go d.running d.idle d.queue refl refl refl
    where
      go :
          (rs : List J) (i : ℕ) (qs : List J)
          → d.running ≡ rs
          → d.idle ≡ i
          → d.queue ≡ qs
          → CanWork d
      go (r ∷ rs) i qs hr hi hq = CanWork-of d (completes 0) tt (λ h. ground (arith, hr))
      go [] zero qs hr hi hq = absurd (ground (arith, hr, hi))
      go [] (suc i) [] hr hi hq = CanWork-of d leaves tt (λ h. ground (arith, hi, hq))
      go [] (suc i) (q ∷ qs) hr hi hq = CanWork-of d receives tt (λ h. ground (arith, hi, hq))

  -- Once the channel is closed the workers empty the pool by themselves: they act at most three times
  -- for a queued job, twice for a running one and once for a waiting worker, and wherever they stop
  -- before all of them have left, one of them can go on.
  pub Works-drains :
      (n : ℕ) (d e : Dispatcher J)
      → d.queue_closed ≡ true
      → Works d n e
      → (n ≤ work d) × (is_drained e ≡ false → CanWork e)
  Works-drains n d e closed w =
      (omega (arith, Works-le n d e w), can_work e (Works-closed n d e w ∙ closed))
