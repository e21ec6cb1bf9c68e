-- ===== src/Logger/Monitor/Deadlock.antt =====
-- The mutex and the condition variable of a logger never block it for good.
use scriptor.Prelude.{
  ℕ, zero, suc, ◌≡◌, refl, ◌⊎◌, inl, inr, Bool, false, Bool-cases, List, [], ◌∷◌, ℤ, arith,
}
use scriptor.Element.{Element}
use scriptor.Logger.{SinkCall, Event}
use scriptor.Logger.Monitor.{
  Holder, free, push_inserts, push_notifies, push_unlocks, stop_stores, stop_unlocks, work_tests,
  work_swaps, work_flushes, Thread, locking, holding, sleeping, writing, left, thrown, Destructor,
  uncalled, storing, notifying, joining, finished, Monitor, start, Move, inserts, notifies, unlocks,
  stores, stop_releases, stop_notifies, joins, locks, sleeps, finds_done, finds_elements, breaks,
  swaps, skips, logs, ends_silent, ends, Run,
}
use scriptor.Logger.Monitor.Wakeup.{Inv, start-Inv, Run-Inv}

-- Nobody has anything left to do: the worker sleeps on an empty queue, or it has left and the
-- destructor has returned.
abbrev pub IsAtRest : Monitor → Type 0
IsAtRest s =
    (s.holder ≡ free)
    × (((s.thread ≡ sleeping) × (s.done ≡ false) × (s.elements ≡ []) × (s.destructor ≡ uncalled))
        ⊎ ((s.thread ≡ left) × (s.destructor ≡ finished)))

module _ (should_log : ℤ → Bool) where
  abbrev pub CanMove : Monitor → Type 0
  CanMove s = (vs : List Event) × (cs : List SinkCall) × (t : Monitor) × Move should_log s vs cs t

  abbrev Goes : Monitor → Type 0
  Goes s = (s.thread ≡ thrown) ⊎ (IsAtRest s ⊎ CanMove s)

  writes : (s : Monitor) (es : List Element) (count : ℕ) → s.thread ≡ writing es count → CanMove s
  writes s [] zero w = (_, _, _, ends_silent w)
  writes s [] (suc count) w = (_, _, _, ends count false w)
  writes s (e ∷ es) count w = elim (Bool-cases (should_log e.level)) [
    | inl p ↦ (_, _, _, logs e es count w p)
    | inr p ↦ (_, _, _, skips e es count w p)
  ]

  tests : (s : Monitor) (es : List Element) → s.elements ≡ es → s.holder ≡ work_tests → CanMove s
  tests s es q h = elim (Bool-cases s.done) [
    | inl d ↦ (_, _, _, finds_done h d)
    | inr d ↦ tests_queue es q d
  ]
    where
      tests_queue : (es : List Element) → s.elements ≡ es → s.done ≡ false → CanMove s
      tests_queue [] q d = (_, _, _, sleeps h d q)
      tests_queue (e ∷ es) q d = (_, _, _, finds_elements h d (ground arith))

  -- What the worker or the destructor does while nobody holds the lock.
  unlocked :
      (x : Thread) (d : Destructor) (s : Monitor)
      → s.holder ≡ free
      → s.thread ≡ x
      → s.destructor ≡ d
      → Inv s
      → Goes s
  unlocked locking d s h w e v = inr (inr (_, _, _, locks h w))
  unlocked holding d s h w e v = absurd (ground arith)
  unlocked (writing es count) d s h w e v = inr (inr (writes s es count w))
  unlocked thrown d s h w e v = inl w
  unlocked sleeping notifying s h w e v = inr (inr (_, _, _, stop_notifies e))
  unlocked sleeping uncalled s h w e v = inr (inl (ground arith))
  unlocked sleeping storing s h w e v = absurd (ground arith)
  unlocked sleeping joining s h w e v = absurd (ground arith)
  unlocked sleeping finished s h w e v = absurd (ground arith)
  unlocked left notifying s h w e v = inr (inr (_, _, _, stop_notifies e))
  unlocked left joining s h w e v = inr (inr (_, _, _, joins e w))
  unlocked left finished s h w e v = inr (inl (h, inr (w, e)))
  unlocked left uncalled s h w e v = absurd (ground arith)
  unlocked left storing s h w e v = absurd (ground arith)

  goes : (x : Holder) (s : Monitor) → s.holder ≡ x → Inv s → Goes s
  goes free s h v = unlocked s.thread s.destructor s h refl refl v
  goes (push_inserts es) s h v = inr (inr (_, _, _, inserts es h))
  goes push_notifies s h v = inr (inr (_, _, _, notifies h))
  goes push_unlocks s h v = inr (inr (_, _, _, unlocks h))
  goes stop_stores s h v = inr (inr (_, _, _, stores h))
  goes stop_unlocks s h v = inr (inr (_, _, _, stop_releases h))
  goes work_tests s h v = inr (inr (tests s s.elements refl h))
  goes work_swaps s h v = inr (inr (_, _, _, swaps h))
  goes work_flushes s h v = elim (v.told h).1 [
    | inl w ↦ inr (inr (_, _, _, breaks h w))
    | inr w ↦ inl w
  ]

  -- There is no deadlock: in every state that a logger reaches, a thread that has begun can take
  -- a step, or the sink has thrown out of the worker, or everything is done: the worker sleeps on
  -- an empty queue and no destructor has been called, or it has left and the destructor has
  -- returned.
  pub no_deadlock :
      {s : Monitor} {vs : List Event} {cs : List SinkCall}
      → Run should_log start vs cs s
      → (s.thread ≡ thrown) ⊎ (IsAtRest s ⊎ CanMove s)
  no_deadlock {s} r = goes s.holder s refl (Run-Inv should_log start-Inv r)
