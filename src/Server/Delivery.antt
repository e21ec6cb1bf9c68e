-- ===== src/Server/Delivery.antt =====
-- A client's bytes, from the connection to the sinks: src/server.cpp with all that it calls.
use scriptor.Prelude.{
  ℕ, zero, suc, ◌+◌, ◌≤◌, ◌≡◌, refl, sym, subst, ap, ◌∙◌, none, false, List, [], ◌∷◌, ◌++◌, map,
  append_assoc, append-nil, concat, ℤ, Bool, length, Bytes, All,
}
use scriptor.Host.{Host}
use scriptor.Element.{Element}
use scriptor.Socket.{Completion, completed, failed}
use scriptor.Acceptor.{Acceptor, wrap}
use scriptor.Processor.{first_frame, find_byte, Processor, process}
use scriptor.Processor.Stream.{wire, AreCuts, decode_cuts, process-wire}
use scriptor.Session.{Session, new_session, read, run_session}
use scriptor.Session.Stream.{run_session_life}
use scriptor.Logger.{Logger, new_logger, waiting, push, run_logger}
use scriptor.Logger.Order.{written, passed}
use scriptor.Logger.Turns.{turns}
use scriptor.Logger.Progress.{catches_up}
use scriptor.Server.Setup.{Sink}
use scriptor.Server.Accept.{Front, accept, connected, open_session, opened, on_accept}
use scriptor.Server.Accept.Pending.{IsAwaited}
use scriptor.Server.Dispatch.{dispatch, dispatch_all}
use scriptor.Server.Dispatch.Fanout.{dispatch-map}

-- A session as `Server::accept` leaves it: it waits for its first bytes.
abbrev pub IsFresh : Session → Type 0
IsFresh s = (s.socket.pending ≡ 1) × (s.processor ≡ record { current = [] })

pub opens :
    (accs : List Acceptor) (i handle : ℕ) (garbage : Bytes)
    → IsAwaited i accs
    → (s : Session) × (open_session accs i handle garbage ≡ s ∷ []) × IsFresh s
unfolding open_session read new_session wrap
opens [] i handle garbage h = absurd h
opens (a ∷ rest) zero handle garbage h = (_, refl, (refl, refl))
opens (a ∷ rest) (suc i) handle garbage h = opens rest i handle garbage h

on_accept_opens :
    (f : Front) (i handle : ℕ) (garbage : Bytes)
    → IsAwaited i f.acceptors
    → (s : Session) × ((on_accept f (connected i handle garbage)).sessions ≡ f.sessions ++ (s ∷ []))
      × IsFresh s
unfolding on_accept accept opened
on_accept_opens f i handle garbage h =
    let (s, only, fresh) = opens f.acceptors i handle garbage h in
    (s, ap (λ ss. f.sessions ++ ss) only, fresh)

-- A logger that waits with these elements in its queue.
abbrev Holds : List Element → Logger → Type 0
Holds es l = l ≡ record { done = false; elements = es; worker = waiting }

push-Holds : (es fs : List Element) (l : Logger) → Holds es l → Holds (es ++ fs) (push l fs)
unfolding push
push-Holds es fs l h = ap (λ m. push m fs) h

dispatch-Holds :
    (es fs : List Element) (ls : List Logger)
    → All (Holds es) ls
    → All (Holds (es ++ fs)) (dispatch ls fs)
dispatch-Holds es fs ls h = subst (All (Holds (es ++ fs))) (sym (dispatch-map ls fs)) (each ls h)
  where
    each : (ls : List Logger) → All (Holds es) ls → All (Holds (es ++ fs)) (map (λ l. push l fs) ls)
    each [] h = tt
    each (l ∷ ls) h = (push-Holds es fs l h.0, each ls h.1)

dispatch_all-Holds :
    (ess : List (List Element)) (es : List Element) (ls : List Logger)
    → All (Holds es) ls
    → All (Holds (es ++ concat ess)) (dispatch_all ls ess)
unfolding dispatch_all
dispatch_all-Holds [] es ls h = subst (λ xs. All (Holds xs) ls) (sym (append-nil es)) h
dispatch_all-Holds (fs ∷ ess) es ls h =
    subst (λ xs. All (Holds xs) (dispatch_all (dispatch ls fs) ess))
      (append_assoc es fs (concat ess))
      (dispatch_all-Holds ess (es ++ fs) (dispatch ls fs) (dispatch-Holds es fs ls h))

new_loggers-Holds : (sinks : List Sink) → All (Holds []) (map (λ k. new_logger) sinks)
unfolding new_logger
new_loggers-Holds [] = tt
new_loggers-Holds (k ∷ sinks) = (refl, new_loggers-Holds sinks)

module _ (should_log : ℤ → Bool) where
  -- The worker writes these elements, as far as they pass the level of its sink, and then waits.
  abbrev pub Writes : List Element → Logger → Type 0
  Writes es l =
      (n : ℕ) × (n ≤ length es + 3)
      × ((run_logger should_log l (turns n)).0
          ≡ record { done = false; elements = []; worker = waiting })
      × (written (run_logger should_log l (turns n)).1 ≡ passed should_log es)

  Holds-Writes : (es : List Element) (l : Logger) → Holds es l → Writes es l
  Holds-Writes es l h =
      subst (Writes es) (sym h)
        (catches_up should_log (record { done = false; elements = es; worker = waiting }) tt refl)

  All-Writes : (es : List Element) (ls : List Logger) → All (Holds es) ls → All (Writes es) ls
  All-Writes es [] h = tt
  All-Writes es (l ∷ ls) h = (Holds-Writes es l h.0, All-Writes es ls h.1)

no_bytes : (p : Processor) → p ≡ record { current = [] } → first_frame p.current ≡ none
unfolding first_frame find_byte
no_bytes p e = ap (λ (q : Processor). first_frame q.current) e

handed_on :
    (h : Host) (s : Session) (chunks : List Bytes) (later : List Completion) (calls : ℕ)
    (cuts : List (Bytes × Bytes)) (tail : Bytes)
    → IsFresh s
    → AreCuts cuts
    → first_frame tail ≡ none
    → concat chunks ≡ wire cuts ++ tail
    → concat (run_session h s (map completed chunks ++ (failed ∷ later)) calls).0.0
      ≡ (decode_cuts h cuts calls).0
handed_on h s chunks later calls cuts tail fresh are_cuts rest sent =
    ap (λ (o : (List Element × Processor) × ℕ). o.0.0)
      ((run_session_life h chunks s later calls fresh.0 (no_bytes s.processor fresh.1)).0
        ∙ (ap (λ p. process h p (concat chunks) calls) fresh.1
            ∙ (ap (λ bs. process h (record { current = [] }) bs calls) sent
                ∙ process-wire h cuts tail calls are_cuts rest)))

-- From the connection to the sinks, for the first client of a server: an acceptor with an accept
-- under way gets a connection, and the client sends frames whose bodies have no `}`, with bytes
-- other than `{` between them and a rest that holds no frame, in any pieces, and goes. The
-- callback opens one session; its pushes give every logger the elements of these frames, one
-- each and in order. The worker of each logger, left alone then with a sink that does not throw,
-- writes those that pass the sink's level within three turns more than there are elements, and
-- waits again.
pub client-Writes :
    (h : Host) (should_log : ℤ → Bool) (f : Front) (i handle : ℕ) (garbage : Bytes)
    (sinks : List Sink) (chunks : List Bytes) (later : List Completion) (calls : ℕ)
    (cuts : List (Bytes × Bytes)) (tail : Bytes)
    → IsAwaited i f.acceptors
    → AreCuts cuts
    → first_frame tail ≡ none
    → concat chunks ≡ wire cuts ++ tail
    → (s : Session) × ((on_accept f (connected i handle garbage)).sessions ≡ f.sessions ++ (s ∷ []))
      × All (Writes should_log (decode_cuts h cuts calls).0) (
          dispatch_all
            (map (λ k. new_logger) sinks)
            (run_session h s (map completed chunks ++ (failed ∷ later)) calls).0.0)
client-Writes h should_log f i handle garbage sinks chunks later calls cuts tail awaited are_cuts
      rest sent =
    let (s, one, fresh) = on_accept_opens f i handle garbage awaited in
    let pushes = (run_session h s (map completed chunks ++ (failed ∷ later)) calls).0.0 in
    let held =
      dispatch_all-Holds pushes [] (map (λ k. new_logger) sinks) (new_loggers-Holds sinks) in
    (
      s,
      one,
      subst (λ es. All (Writes should_log es) (dispatch_all (map (λ k. new_logger) sinks) pushes))
          (handed_on h s chunks later calls cuts tail fresh are_cuts rest sent)
          (All-Writes should_log (concat pushes) _ held),
    )
