-- ===== src/Server/System/Over.antt =====
-- src/session.cpp, `Session::read`, the callback with an error: the end of a session.
use scriptor.Prelude.{
  ℕ, ◌≤◌, ◌<◌, ◌≡◌, ◌≢◌, refl, sym, subst, ap, ◌∙◌, Bool, List, ℤ, put, put_self, put_other, arith,
}
use scriptor.Host.{Host}
use scriptor.Acceptor.{Acceptor}
use scriptor.Server.System.{
  Stage, quiet, Client, serving, System, give_up, IsReady, Step, accepts, refuses, listens,
  has_listened, has_served, joins, has_joined, has_closed, receives, fails, pushes, has_pushed,
  rearms, works, stops, returns, closes, Reach, later,
}
use scriptor.Server.System.Callbacks.{Goes, stays, goes, Reach-goes}
use scriptor.Server.System.Gets.{got}
use scriptor.Server.System.Order.{all_got}
use scriptor.Server.System.Seats.{serving_seated}
use scriptor.Server.System.Sessions.{Counted, reading_quiet, Reach-IsSound}
use scriptor.Server.System.Streams.{stream}
use scriptor.Server.System.Threads.{Reach-Exclusive}

-- No callback of the session runs and none can begin.
abbrev IsOver : System → ℕ → Type 0
IsOver s k =
    (k < s.opened) × ((s.client k).stage ≡ quiet) × ((s.client k).session.socket.pending ≡ 0)

module _ (h : Host) (now : ℕ → ℕ → ℤ) (should_log : ℕ → ℤ → Bool) (threads loggers : ℕ) where
  -- The number of a session that does something is another one.
  reads_another :
      (s : System) (k i : ℕ) → IsOver s k → 1 ≤ (s.client i).session.socket.pending → i ≢ k
  reads_another s k i over n e =
      let m = subst (λ c. 1 ≤ (s.client c).session.socket.pending) e n in omega (arith, m, over.2)

  runs_another :
      (s : System) (k i : ℕ) {y : Stage} → IsOver s k → (s.client i).stage ≡ y → y ≢ quiet → i ≢ k
  runs_another s k i over a ne e = ne (sym a ∙ (ap (λ c. (s.client c).stage) e ∙ over.1))

  Step-over :
      {s t : System} (k : ℕ)
      → Step h now should_log threads loggers s t
      → IsOver s k
      → (t.client k ≡ s.client k) × (s.opened ≤ t.opened)
  Step-over {s} k (accepts x i handle garbage e ready a o) over =
      (put_other s.client s.opened _ k (λ q. omega (arith, q, over.0)), omega arith)
  Step-over k (refuses x i ready a) over = (refl, omega arith)
  Step-over k (listens x j lt a b) over = (refl, omega arith)
  Step-over k (has_listened x j lt a b) over = (refl, omega arith)
  Step-over {s} k (receives x i bytes ready lt n) over =
      (put_other s.client i _ k (reads_another s k i over n), omega arith)
  Step-over {s} k (fails x i ready lt n) over =
      (put_other s.client i _ k (reads_another s k i over n), omega arith)
  Step-over {s} k (pushes x i j es lt a b c) over =
      (put_other s.client i _ k (runs_another s k i over b (λ q. cc)), omega arith)
  Step-over {s} k (has_pushed x i j es lt a b c) over =
      (put_other s.client i _ k (runs_another s k i over b (λ q. cc)), omega arith)
  Step-over {s} k (rearms x i lt a b) over =
      (put_other s.client i _ k (runs_another s k i over b (λ q. cc)), omega arith)
  Step-over k (has_served x i lt a) over = (refl, omega arith)
  Step-over k (works j throws) over = (refl, omega arith)
  Step-over k (stops p) over = (refl, omega arith)
  Step-over k (joins x p lt a) over = (refl, omega arith)
  Step-over k (has_joined x p e) over = (refl, omega arith)
  Step-over k (has_closed j p e) over = (refl, omega arith)
  Step-over k (returns x lt a b) over = (refl, omega arith)
  Step-over k (closes j p below) over = (refl, omega arith)

  goes_over :
      {s t : System} {n : ℕ} (k : ℕ)
      → Goes h now should_log threads loggers s n t
      → IsOver s k
      → t.client k ≡ s.client k
  goes_over k stays over = refl
  goes_over {s} k (goes {t = u} st g) over =
      let (same, le) = Step-over k st over in
      let over' : IsOver u k = (
        omega (arith, le, over.0),
        ap (λ (c : Client). c.stage) same ∙ over.1,
        ap (λ (c : Client). c.session.socket.pending) same ∙ over.2,
      ) in
      goes_over k g over' ∙ same

  -- A failed read ends a session for good, whatever the other sessions and threads go on to do:
  -- from every state that the server reaches with a read of the session under way, behind the
  -- callback with an error and any steps then, no thread is in a callback of the session before
  -- its call of `read`, no read of it is under way, and each logger has got from it just the
  -- elements of the bytes that it had been sent before the failure.
  pub failed_read_ends :
      {accs : List Acceptor} {s t : System} {n : ℕ}
      → Reach h now should_log threads loggers accs s
      → (x k : ℕ) → IsReady threads s x
      → k < s.opened
      → 1 ≤ (s.client k).session.socket.pending
      → Goes h now should_log threads loggers
          (record s { client = put s.client k (give_up (s.client k)) })
          n
          t
      → ((y : ℕ) → t.thread y ≢ serving k)
        × ((t.client k).session.socket.pending ≡ 0)
        × ((j : ℕ)
            → j < loggers
            → got k (t.station j).inbox ≡ (stream h now k (s.client k).sent).0.0)
  failed_read_ends {s} {t} r x k ready lt n g =
      let c = s.client k in
      let sound = Reach-IsSound h now should_log threads loggers r k in
      let at_rest = reading_quiet h now k c sound n in
      let one = subst (λ y. Counted y c.session.socket.pending) at_rest sound.counted in
      let self = put_self s.client k (give_up c) in
      let over : IsOver (record s { client = put s.client k (give_up c) }) k = (
        lt,
        ap (λ (d : Client). d.stage) self ∙ at_rest,
        ap (λ (d : Client). d.session.socket.pending) self ∙ omega (arith, one),
      ) in
      let same = goes_over k g over ∙ self in
      let r' = Reach-goes h now should_log threads loggers (later r (fails x k ready lt n)) g in
      let still = ap (λ (d : Client). d.stage) same ∙ at_rest in
      (
        (λ y a. serving_seated t y k (Reach-Exclusive h now should_log threads loggers r') a still),
        ap (λ (d : Client). d.session.socket.pending) same ∙ omega (arith, one),
        (λ j below.
            all_got h now should_log threads loggers r' k j below still
            ∙ ap (λ (d : Client). (stream h now k d.sent).0.0) same),
      )
