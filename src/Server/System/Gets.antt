-- ===== src/Server/System/Gets.antt =====
-- What a logger has got from a session, through the rounds of a push.
use scriptor.Prelude.{
  ℕ, suc, ◌≤◌, ◌<◌, ◌≡◌, ◌≢◌, sym, subst, ap, ◌∙◌, Bool, List, [], ◌∷◌, ◌++◌, append_assoc,
  append-nil, ℤ, ==_iff, ==_self, ◌==◌, if◌then◌else◌, Bytes, arith,
}
use scriptor.Host.{Host}
use scriptor.Element.{Element}
use scriptor.Server.System.{
  Stage, quiet, pushing, rearming, Client, Station, next_stage, receive, rearm, deliver,
}
use scriptor.Server.System.Streams.{stream, arrival, stream-append, receive_lem}
use scriptor.Server.System.Sessions.{IsSound}

-- What a session has pushed to a logger.
abbrev pub got : ℕ → List (ℕ × List Element) → List Element
got k [] = []
got k ((c, es) ∷ inbox) = let rest = got k inbox in if c == k then es ++ rest else rest

got_same :
    (k : ℕ) (es : List Element) (inbox : List (ℕ × List Element))
    → got k (inbox ++ ((k, es) ∷ [])) ≡ got k inbox ++ es
got_same k es [] = rw (==_self k) (append-nil es)
got_same k es ((c, fs) ∷ inbox) =
    ground (arith, got_same k es inbox, append_assoc fs (got k inbox) es)

pub got_other :
    (k c : ℕ) (es : List Element) (inbox : List (ℕ × List Element))
    → c ≢ k
    → got k (inbox ++ ((c, es) ∷ [])) ≡ got k inbox
got_other k c es [] n = ground (arith, ==_iff c k)
got_other k c es ((d, fs) ∷ inbox) n = ground (arith, got_other k c es inbox n)

-- `es` are the elements of all that the session has been sent; `here` is what the logger at `j`
-- has got of them: all, but for the batch whose round for this logger is still to come.
abbrev pub Delivered : Stage → List Element → List Element → ℕ → Type 0
Delivered quiet es got j = got ≡ es
Delivered rearming es got j = got ≡ es
Delivered (pushing i batch) es got j = (j < i → got ≡ es) × (i ≤ j → got ++ batch ≡ es)

Delivered-next_stage :
    (fs es got : List Element) (j : ℕ) → got ≡ es → Delivered (next_stage fs) (es ++ fs) got j
Delivered-next_stage [] es got j e = e ∙ sym (append-nil es)
Delivered-next_stage (f ∷ fs) es got j e =
    (λ lt. absurd (omega arith), λ le. ap (λ l. l ++ (f ∷ fs)) e)

module _ (h : Host) (now : ℕ → ℕ → ℤ) where
  abbrev pub Gets : ℕ → Client → ℕ → Station → Type 0
  Gets k c j st = Delivered c.stage (stream h now k c.sent).0.0 (got k st.inbox) j

  -- The rounds of a push.
  pub pushes-Gets :
      (k j : ℕ) (es : List Element) (c : Client) (should_log : ℕ → ℤ → Bool) (st : Station)
      → c.stage ≡ pushing j es
      → Gets k c j st
      → Gets k (record c { stage = pushing (suc j) es }) j (deliver should_log j k es st)
  pushes-Gets k j es c should_log st e v =
      let before = subst (λ x. Delivered x (stream h now k c.sent).0.0 (got k st.inbox) j) e v in
      (λ lt. got_same k es st.inbox ∙ before.1 (omega arith), λ le. absurd (omega arith))

  pub skips-Gets :
      (k j i : ℕ) (es : List Element) (c : Client) (st : Station)
      → c.stage ≡ pushing j es
      → j ≢ i
      → Gets k c i st
      → Gets k (record c { stage = pushing (suc j) es }) i st
  skips-Gets k j i es c st e n v =
      let before = subst (λ x. Delivered x (stream h now k c.sent).0.0 (got k st.inbox) i) e v in
      (λ lt. before.0 (omega (arith, lt, n)), λ le. before.1 (omega (arith, le)))

  pub has_pushed-Gets :
      (k j i : ℕ) (es : List Element) (c : Client) (st : Station)
      → c.stage ≡ pushing j es
      → i < j
      → Gets k c i st
      → Gets k (record c { stage = rearming }) i st
  has_pushed-Gets k j i es c st e lt v =
      (subst (λ x. Delivered x (stream h now k c.sent).0.0 (got k st.inbox) i) e v).0 lt

  pub rearms-Gets :
      (k i : ℕ) (c : Client) (st : Station)
      → c.stage ≡ rearming
      → Gets k c i st
      → Gets k (rearm c) i st
  rearms-Gets k i c st e v =
      subst (λ x. Delivered x (stream h now k c.sent).0.0 (got k st.inbox) i) e v

  pub receives-Gets :
      (k i : ℕ) (c : Client) (bytes : Bytes) (st : Station)
      → c.stage ≡ quiet
      → IsSound h now k c
      → Gets k c i st
      → Gets k (receive h now k c bytes) i st
  receives-Gets k i c bytes st e f v =
      subst (λ (d : Client). Gets k d i st) (sym (receive_lem h now k c bytes))
        (subst
          (λ (r : (List Element × _) × ℕ).
            Delivered (next_stage (arrival h now k c bytes).0.0) r.0.0 (got k st.inbox) i)
          (sym (stream-append h now k c bytes f.processed))
          (Delivered-next_stage (arrival h now k c bytes).0.0 (stream h now k c.sent).0.0
            (got k st.inbox) i
            (subst (λ x. Delivered x (stream h now k c.sent).0.0 (got k st.inbox) i) e v)))
