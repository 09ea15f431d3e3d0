-- ===== src/DeferWork/Tests.antt =====
-- A pool of two workers that takes a job, is closed and ends.
use vault.Common.{ℕ, ◌≤◌, ◌≡◌, refl, true, false, Option, none, some, [], ◌∷◌, ltb, length}
use vault.DeferWork.{
  Dispatcher, Event, enters, sends, marks, closes, receives, completes, leaves, new, has_none,
  is_drained, enter, send, mark, close_queue, receive, leave, complete, step, Reach, here, later,
}
use vault.DeferWork.Drained.{count, drained-finished, Works, rest, act, work, IsWork, Works-drains}

abbrev or_stay : Dispatcher ℕ → Option (Dispatcher ℕ) → Dispatcher ℕ
or_stay d none = d
or_stay d (some e) = e

abbrev after : Event ℕ → Dispatcher ℕ → Dispatcher ℕ
after ev d = or_stay d (step ev d)

abbrev entered : Dispatcher ℕ
unfolding new step enter send
entered = after (sends 0) (after (enters (some 7)) (new 2 1))

abbrev shut : Dispatcher ℕ
unfolding step mark close_queue
shut = after closes (after marks entered)

abbrev started : Dispatcher ℕ
unfolding step receive
started = after receives shut

abbrev over : Dispatcher ℕ
unfolding step complete leave
over = after leaves (after leaves (after (completes 0) started))

over-drained : is_drained over ≡ true
unfolding new step enter send mark close_queue receive complete leave
over-drained = refl

over-finished : over.finished ≡ 7 ∷ []
unfolding new step enter send mark close_queue receive complete leave
over-finished = refl

over-Reach : Reach (new 2 1) over
unfolding new step enter send mark close_queue receive complete leave
over-Reach =
    let r1 : Reach (new 2 1) (after (enters (some 7)) (new 2 1)) =
      later here (enters (some 7)) refl in
    let r2 : Reach (new 2 1) entered = later r1 (sends 0) refl in
    let r3 : Reach (new 2 1) (after marks entered) = later r2 marks refl in
    let r4 : Reach (new 2 1) shut = later r3 closes refl in
    let r5 : Reach (new 2 1) started = later r4 receives refl in
    let r6 : Reach (new 2 1) (after (completes 0) started) = later r5 (completes 0) refl in
    let r7 : Reach (new 2 1) (after leaves (after (completes 0) started)) = later r6 leaves refl in
    later r7 leaves refl

drained-finished_example :
    (over.panicked ≡ false)
    × (length over.queue ≤ 1)
    × (length over.running ≤ 2)
    × (is_drained over ≡ true
        → (has_none over.queue ≡ true)
          × (count (ltb 5) over.accepted ≡ count (ltb 5) over.finished))
unfolding new step enter send mark close_queue receive complete leave
drained-finished_example = drained-finished (ltb 5) 2 1 over over-Reach

shut-closed : shut.queue_closed ≡ true
unfolding new step enter send mark close_queue
shut-closed = refl

started-Works : Works shut 1 started
unfolding new step enter send mark close_queue receive
started-Works = act rest receives tt refl

Works-drains_example :
    (1 ≤ work shut)
    × (is_drained started ≡ false
        → (ev : Event ℕ) × (e : Dispatcher ℕ) × IsWork ev × (step ev started ≡ some e))
Works-drains_example = Works-drains 1 shut started shut-closed started-Works
