-- ===== src/Server/System/Order.antt =====
-- What each logger has got from each session, against what the session has been sent.
use scriptor.Prelude.{
  ℕ, suc, ◌<◌, ◌≡◌, ◌≢◌, refl, sym, subst, ap, ◌∙◌, ◌⊎◌, inl, inr, Bool, Bool-cases, List, [], ◌++◌,
  append-nil, ℤ, put, put_all, ltb, arith,
}
use scriptor.Host.{Host}
use scriptor.Element.{Element}
use scriptor.Acceptor.{Acceptor}
use scriptor.Session.{Session}
use scriptor.Server.System.{
  Stage, quiet, pushing, rearming, Client, Station, System, new_client, deliver, Step, accepts,
  refuses, listens, has_listened, has_served, joins, has_joined, has_closed, receives, fails,
  pushes, has_pushed, rearms, works, stops, returns, closes, Reach, here, later,
}
use scriptor.Server.System.Unused.{Unused, Reach-Unused}
use scriptor.Server.System.Streams.{stream, nothing_sent}
use scriptor.Server.System.Sessions.{IsSound, reading_quiet, Reach-IsSound}
use scriptor.Server.System.Gets.{
  got, got_other, Delivered, Gets, pushes-Gets, skips-Gets, has_pushed-Gets, rearms-Gets,
  receives-Gets,
}

module _ (h : Host) (now : ℕ → ℕ → ℤ) where
  module _ (should_log : ℕ → ℤ → Bool) (threads loggers : ℕ) where
    abbrev AllGet : (ℕ → Client) → (ℕ → Station) → Type 0
    AllGet client station = (k i : ℕ) → i < loggers → Gets h now k (client k) i (station i)

    -- A step that leaves the loggers alone.
    client-put :
        (s : System) (k : ℕ) (c : Client)
        → ((i : ℕ) → i < loggers → Gets h now k c i (s.station i))
        → AllGet s.client s.station
        → AllGet (put s.client k c) s.station
    client-put s k c new v =
        put_all (λ j d. (i : ℕ) → i < loggers → Gets h now j d i (s.station i)) s.client k c
          (λ j n. v j) new

    -- A step of a worker.
    station-put :
        (s : System) (j : ℕ) (st : Station)
        → st.inbox ≡ (s.station j).inbox
        → AllGet s.client s.station
        → AllGet s.client (put s.station j st)
    station-put s j st same v k =
        put_all (λ i (u : Station). i < loggers → Gets h now k (s.client k) i u) s.station j st
          (λ i n. v k i)
          (λ lt.
            subst
              (λ b. Delivered (s.client k).stage (stream h now k (s.client k).sent).0.0 (got k b) j)
              (sym same) (v k j lt))

    pushes-AllGet :
        (s : System) (k j : ℕ) (es : List Element)
        → (s.client k).stage ≡ pushing j es
        → AllGet s.client s.station
        → AllGet
            (put s.client k (record (s.client k) { stage = pushing (suc j) es }))
            (put s.station j (deliver should_log j k es (s.station j)))
    pushes-AllGet s k j es e v =
        put_all
          (λ c d.
            (i : ℕ)
            → i < loggers
            → Gets h now c d i (put s.station j (deliver should_log j k es (s.station j)) i))
          s.client k (record (s.client k) { stage = pushing (suc j) es })
          (λ c n.
            put_all (λ i (u : Station). i < loggers → Gets h now c (s.client c) i u) s.station j
              (deliver should_log j k es (s.station j)) (λ i m. v c i)
              (λ lt.
                subst (λ b. Delivered (s.client c).stage (stream h now c (s.client c).sent).0.0 b j)
                  (sym (got_other c k es (s.station j).inbox n)) (v c j lt)))
          (put_all
            (λ i (u : Station).
              i < loggers → Gets h now k (record (s.client k) { stage = pushing (suc j) es }) i u)
            s.station j (deliver should_log j k es (s.station j))
            (λ i n lt. skips-Gets h now k j i es (s.client k) (s.station i) e n (v k i lt))
            (λ lt. pushes-Gets h now k j es (s.client k) should_log (s.station j) e (v k j lt)))

    -- The new session has been sent nothing, as its number before.
    opens-Gets :
        (s : System) (e : Session)
        → Unused s
        → AllGet s.client s.station
        → (i : ℕ) → i < loggers
        → Gets h now s.opened (new_client e) i (s.station i)
    opens-Gets s e u v i lt =
        subst (λ (c : Client). Gets h now s.opened c i (s.station i)) (u s.opened (omega arith))
          (v s.opened i lt)

    Step-AllGet :
        {s t : System}
        → Step h now should_log threads loggers s t
        → ((k : ℕ) → IsSound h now k (s.client k))
        → Unused s
        → AllGet s.client s.station
        → AllGet t.client t.station
    Step-AllGet {s} (accepts x i handle garbage e ready a o) f u v =
        client-put s s.opened (new_client e) (opens-Gets s e u v) v
    Step-AllGet (refuses x i ready a) f u v = v
    Step-AllGet (listens x j lt a b) f u v = v
    Step-AllGet (has_listened x j lt a b) f u v = v
    Step-AllGet {s} (receives x k bytes ready lt n) f u v =
        client-put s k _
          (λ i lt.
            receives-Gets h now k i (s.client k) bytes (s.station i)
              (reading_quiet h now k (s.client k) (f k) n) (f k) (v k i lt))
          v
    Step-AllGet {s} (fails x k ready lt n) f u v = client-put s k _ (λ i lt. v k i lt) v
    Step-AllGet {s} (pushes x k j es lt a b c) f u v = pushes-AllGet s k j es b v
    Step-AllGet {s} (has_pushed x k j es lt a b c) f u v =
        client-put s k _
          (λ i lt.
            has_pushed-Gets h now k j i es (s.client k) (s.station i) b (omega (arith, c, lt))
              (v k i lt))
          v
    Step-AllGet {s} (rearms x k lt a b) f u v =
        client-put s k _ (λ i lt. rearms-Gets h now k i (s.client k) (s.station i) b (v k i lt)) v
    Step-AllGet (has_served x k lt a) f u v = v
    Step-AllGet {s} (works j throws) f u v = station-put s j _ refl v
    Step-AllGet (stops p) f u v = v
    Step-AllGet (joins x p lt a) f u v = v
    Step-AllGet (has_joined x p e) f u v = v
    Step-AllGet (has_closed j p e) f u v = v
    Step-AllGet (returns x lt a b) f u v = v
    Step-AllGet {s} (closes j p below) f u v = station-put s j _ refl v

    Reach-AllGet :
        {accs : List Acceptor} {s : System}
        → Reach h now should_log threads loggers accs s
        → AllGet s.client s.station
    Reach-AllGet here k i lt =
        sym (ap (λ (r : (List Element × _) × ℕ). r.0.0) (nothing_sent h now k))
    Reach-AllGet (later r st) k i lt =
        Step-AllGet st (Reach-IsSound h now should_log threads loggers r)
          (Reach-Unused h now should_log threads loggers r) (Reach-AllGet r) k i lt

    split_at :
        (x : Stage) (es got : List Element) (j : ℕ)
        → Delivered x es got j
        → (rest : List Element) × (got ++ rest ≡ es) × ((rest ≡ []) ⊎ (x ≢ quiet))
    split_at quiet es got j d = ([], append-nil got ∙ d, inl refl)
    split_at rearming es got j d = ([], append-nil got ∙ d, inl refl)
    split_at (pushing i batch) es got j d = elim (Bool-cases (ltb j i)) [
      | inl lt ↦ ([], append-nil got ∙ d.0 (ground arith), inl refl)
      | inr ge ↦ (batch, d.1 (ground arith), inr (λ q. cc))
    ]

    -- Every logger gets the log of every session in order, while any number of sessions are read
    -- and pushed by any number of threads and workers take turns: in every state that the server
    -- reaches, what a logger has got from a session is a first part of the elements of all the
    -- bytes that the session has been sent, taken as one stream, and it is all of them unless a
    -- callback of the session is running.
    pub got_in_order :
        {accs : List Acceptor} {s : System}
        → Reach h now should_log threads loggers accs s
        → (k j : ℕ) → j < loggers
        → (rest : List Element) × (got k (s.station j).inbox ++ rest
            ≡ (stream h now k (s.client k).sent).0.0)
          × ((rest ≡ []) ⊎ ((s.client k).stage ≢ quiet))
    got_in_order {s} r k j lt =
        split_at (s.client k).stage (stream h now k (s.client k).sent).0.0
          (got k (s.station j).inbox) j (Reach-AllGet r k j lt)

    pub all_got :
        {accs : List Acceptor} {s : System}
        → Reach h now should_log threads loggers accs s
        → (k j : ℕ) → j < loggers
        → (s.client k).stage ≡ quiet
        → got k (s.station j).inbox ≡ (stream h now k (s.client k).sent).0.0
    all_got {s} r k j lt at_rest =
        let (rest, whole, how) = got_in_order r k j lt in
        elim how [
          | inl none ↦
              sym (append-nil (got k (s.station j).inbox))
              ∙ (ap (λ es. got k (s.station j).inbox ++ es) (sym none) ∙ whole)
          | inr busy ↦ absurd (busy at_rest)
        ]
