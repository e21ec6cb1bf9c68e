-- ===== src/Server/System/Idle.antt =====
-- How the callbacks of the running server end when nothing new comes.
use scriptor.Prelude.{
  ℕ, zero, suc, ◌≤◌, ◌<◌, ◌≡◌, ◌≢◌, refl, sym, subst, ◌∙◌, inl, inr, Bool, true, false, List, ℤ,
  length, arith,
}
use scriptor.Host.{Host}
use scriptor.Acceptor.{Acceptor}
use scriptor.Server.System.{Post, polling, serving, accepting, leaving, gone, System, Reach, later}
use scriptor.Server.System.Accepts.{IsPlaced, Reach-Placed}
use scriptor.Server.System.Callbacks.{Goes, stays, goes, Reach-IsWithin}
use scriptor.Server.System.Costs.{remaining, find_busy}
use scriptor.Server.System.Finishing.{
  Keeps, Finishes, serving-Finishes, leaving-Finishes, accepting-Finishes,
}
use scriptor.Server.System.Lifetimes.{Reach-Outlives}
use scriptor.Server.System.Seats.{serving_seated}
use scriptor.Server.System.Threads.{Reach-Exclusive}

module _ (h : Host) (now : ℕ → ℕ → ℤ) (should_log : ℕ → ℤ → Bool) (threads loggers : ℕ) where
  -- While the context is not stopped, no thread has left it and every worker is in its loop.
  busy-Finishes :
      {accs : List Acceptor} {s : System}
      → Reach h now should_log threads loggers accs s
      → s.ioc_stopped ≡ false
      → (x : ℕ) (p : Post) → x < threads
      → s.thread x ≡ p
      → p ≢ polling
      → Finishes h now should_log threads loggers s
  busy-Finishes r going x polling lt a ne = absurd (ne refl)
  busy-Finishes {s} r going x (serving k) lt a ne =
      let v = Reach-Exclusive h now should_log threads loggers r in
      serving-Finishes h now should_log threads loggers s x k (s.client k).stage v lt a refl
        (serving_seated s x k v a) (Reach-IsWithin h now should_log threads loggers r k)
  busy-Finishes {s} r going x (accepting j) lt a ne =
      let (len, placed) = Reach-Placed h now should_log threads loggers r in
      accepting-Finishes h now should_log threads loggers s x j lt a (
        subst (IsPlaced (length s.acceptors)) a
          (subst (λ n. IsPlaced n (s.thread x)) (sym len) (placed x)))
  busy-Finishes {s} r going x (leaving k) lt a ne =
      leaving-Finishes h now should_log threads loggers s x k lt a
  busy-Finishes {s} r going x gone lt a ne =
      let e = (Reach-Outlives should_log h now threads loggers r).ended x a in
      absurd (let c : true ≡ false = sym e ∙ going in cc)

  -- The callbacks end, one step after the other.
  pub quieten :
      (m : ℕ) {accs : List Acceptor} {s : System}
      → Reach h now should_log threads loggers accs s
      → s.ioc_stopped ≡ false
      → remaining threads loggers s ≤ m
      → (n : ℕ) × (t : System) × Goes h now should_log threads loggers s n t
        × ((x : ℕ) → x < threads → t.thread x ≡ polling)
        × Keeps h now should_log threads loggers s t
  quieten zero {accs} {s} r going le = elim (find_busy s.thread threads) [
    | inl all ↦ (0, s, stays, all, (refl, refl, (λ k. refl), λ j. refl))
    | inr (x, lt, ne) ↦
        let (t, st, less, keeps) = busy-Finishes r going x (s.thread x) lt refl ne in
        absurd (omega (arith, less, le))
  ]
  quieten (suc m) {accs} {s} r going le = elim (find_busy s.thread threads) [
    | inl all ↦ (0, s, stays, all, (refl, refl, (λ k. refl), λ j. refl))
    | inr (x, lt, ne) ↦
        let (t, st, less, (same, opened, sent, calls)) =
          busy-Finishes r going x (s.thread x) lt refl ne in
        let (n, u, g, all, (same', opened', sent', calls')) =
          quieten m (later r st) (same ∙ going) (omega (arith, less, le)) in
        (
          suc n,
          u,
          goes st g,
          all,
          (same' ∙ same, opened' ∙ opened, (λ k. sent' k ∙ sent k), λ j. calls' j ∙ calls j),
        )
  ]
