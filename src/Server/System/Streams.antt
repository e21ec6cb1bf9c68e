-- ===== src/Server/System/Streams.antt =====
-- What each session has processed of what it has been sent.
use scriptor.Socket.{answered}
use scriptor.Prelude.{
  ℕ, ◌≡◌, refl, sym, subst, ap, ◌∙◌, List, [], ◌++◌, length, drop, take-append, ℤ, Bytes,
}
use scriptor.Host.{Host}
use scriptor.Element.{Element}
use scriptor.Processor.{first_frame, find_byte, Processor, process}
use scriptor.Processor.Drain.{Drained, drain_stop}
use scriptor.Processor.Stream.{process_lem, process-append}
use scriptor.Session.{Session, fill}
use scriptor.Server.System.{Client, next_stage, new_client, host_of, receive}

abbrev pub empty : Processor
empty = record { current = [] }

module _ (h : Host) (now : ℕ → ℕ → ℤ) where
  -- What the processor makes of all that a session has been sent, at once.
  abbrev pub stream : ℕ → Bytes → (List Element × Processor) × ℕ
  stream k bytes = process (host_of h now k) empty bytes 0

  -- What it makes of the bytes that arrive now.
  abbrev pub arrival : ℕ → Client → Bytes → (List Element × Processor) × ℕ
  arrival k c bytes = process (host_of h now k) c.session.processor bytes c.clock

  pub receive_lem :
      (k : ℕ) (c : Client) (bytes : Bytes)
      → receive h now k c bytes ≡ record {
        session = record {
          buffer = fill c.session.buffer bytes;
          processor = (arrival k c bytes).0.1;
          socket = answered c.session.socket;
        };
        stage = next_stage (arrival k c bytes).0.0;
        sent = c.sent ++ bytes;
        clock = (arrival k c bytes).1;
      }
  unfolding fill
  receive_lem k c bytes = rw (take-append bytes (drop (length bytes) c.session.buffer))

  abbrev pub IsProcessed : ℕ → Client → Type 0
  IsProcessed k c = (c.session.processor ≡ (stream k c.sent).0.1) × (c.clock ≡ (stream k c.sent).1)

  pub stream-append :
      (k : ℕ) (c : Client) (bytes : Bytes)
      → IsProcessed k c
      → stream k (c.sent ++ bytes) ≡ (
        ((stream k c.sent).0.0 ++ (arrival k c bytes).0.0, (arrival k c bytes).0.1),
        (arrival k c bytes).1,
      )
  stream-append k c bytes (p, q) =
      process-append (host_of h now k) empty c.sent bytes 0
      ∙ (ap (λ (r : Processor). join r (stream k c.sent).1) (sym p)
          ∙ ap (join c.session.processor) (sym q))
    where
      join : Processor → ℕ → (List Element × Processor) × ℕ
      join r n =
          let new = process (host_of h now k) r bytes n in
          (((stream k c.sent).0.0 ++ new.0.0, new.0.1), new.1)

  pub receive-IsProcessed :
      (k : ℕ) (c : Client) (bytes : Bytes)
      → IsProcessed k c
      → IsProcessed k (receive h now k c bytes)
  receive-IsProcessed k c bytes i =
      let e = stream-append k c bytes i in
      subst (IsProcessed k) (sym (receive_lem k c bytes)) (
        sym (ap (λ (r : (List Element × Processor) × ℕ). r.0.1) e),
        sym (ap (λ (r : (List Element × Processor) × ℕ). r.1) e),
      )

  pub nothing_sent : (k : ℕ) → stream k [] ≡ (([], empty), 0)
  unfolding first_frame find_byte
  nothing_sent k =
      process_lem (host_of h now k) empty [] 0
      ∙ ap (λ (r : Drained). ((r.0, record { current = r.1 }), r.2))
          (drain_stop (host_of h now k) [] 0 refl)

  pub new-IsProcessed : (k : ℕ) (e : Session) → e.processor ≡ empty → IsProcessed k (new_client e)
  new-IsProcessed k e p = (
    p ∙ sym (ap (λ (r : (List Element × Processor) × ℕ). r.0.1) (nothing_sent k)),
    sym (ap (λ (r : (List Element × Processor) × ℕ). r.1) (nothing_sent k)),
  )
