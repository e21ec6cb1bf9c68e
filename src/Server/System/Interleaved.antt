-- ===== src/Server/System/Interleaved.antt =====
-- What a sink has taken from all sessions together.
use scriptor.Prelude.{
  ℕ, ◌<◌, ◌≡◌, refl, sym, subst, ap, ◌∙◌, Bool, List, [], ◌∷◌, ◌++◌, ℤ, All, ==_iff, ==_self,
  if_true, if_false, Interleaves, nothing_left, Interleaves-append, arith, ◌==◌, false,
}
use scriptor.Host.{Host}
use scriptor.Element.{Element}
use scriptor.Acceptor.{Acceptor}
use scriptor.Logger.Order.{written, in_hand, passed, passed-append}
use scriptor.Logger.Calls.{IsTaken}
use scriptor.Server.System.{quiet, System, Reach}
use scriptor.Server.System.Streams.{stream}
use scriptor.Server.System.Gets.{got}
use scriptor.Server.System.Order.{got_in_order, all_got}
use scriptor.Server.System.Accounts.{taken, nothing_lost}

inbox-Interleaves :
    (should_log : ℤ → Bool) (inbox : List (ℕ × List Element))
    → Interleaves (λ k. passed should_log (got k inbox)) (passed should_log (taken inbox))
inbox-Interleaves should_log [] = nothing_left (λ k. refl)
inbox-Interleaves should_log ((c, es) ∷ inbox) =
    subst (Interleaves (λ k. passed should_log (got k ((c, es) ∷ inbox))))
      (sym (passed-append should_log es (taken inbox)))
      (Interleaves-append c (passed should_log es)
        (ap (passed should_log) (if_true (c == c) (es ++ got c inbox) (got c inbox) (==_self c))
          ∙ passed-append should_log es (got c inbox))
        (λ i n.
          let other : (c == i) ≡ false = ground (arith, ==_iff c i) in
          ap (passed should_log) (if_false (c == i) (es ++ got i inbox) (got i inbox) other))
        (inbox-Interleaves should_log inbox))

module _ (h : Host) (now : ℕ → ℕ → ℤ) (should_log : ℕ → ℤ → Bool) (threads loggers : ℕ) where
  -- The part of a session's log that has got to a logger: a first part of the elements of all
  -- the bytes that the session has been sent, and all of them while no callback of it runs.
  abbrev pub Arrived : System → ℕ → List Element → Type 0
  Arrived s k es =
      ((rest : List Element) × (es ++ rest ≡ (stream h now k (s.client k).sent).0.0))
      × ((s.client k).stage ≡ quiet → es ≡ (stream h now k (s.client k).sent).0.0)

  -- The log of the server is an interleaving of the logs of its sessions: in every state that the
  -- server reaches in which each call on the sink of a logger has returned, what the sink has
  -- taken, followed by what the logger still holds, takes one message after the other from the
  -- logs of the sessions, each from its front, up to a first part of each, which is the whole of
  -- it where no callback of the session runs. Nothing is lost, doubled, reordered within a
  -- session or made up.
  pub logs_interleave :
      {accs : List Acceptor} {s : System}
      → Reach h now should_log threads loggers accs s
      → (j : ℕ) → j < loggers
      → All IsTaken (s.station j).calls
      → (part : ℕ → List Element) × ((k : ℕ) → Arrived s k (part k))
        × Interleaves
            (λ k. passed (should_log j) (part k))
            (written (s.station j).calls ++ passed (should_log j) (in_hand (s.station j).logger))
  logs_interleave {s} r j lt all_taken =
      let inbox = (s.station j).inbox in
      (
        (λ k. got k inbox),
        (λ k.
            let (rest, whole, how) = got_in_order h now should_log threads loggers r k j lt in
            ((rest, whole), all_got h now should_log threads loggers r k j lt)),
        subst (Interleaves (λ k. passed (should_log j) (got k inbox)))
            (sym (nothing_lost should_log h now threads loggers r j all_taken))
            (inbox-Interleaves (should_log j) inbox),
      )
