-- ===== src/Processor/Elements.antt =====
-- The elements that `Processor::operator()` returns.
use scriptor.Prelude.{
  ap, ◌∙◌, append-nil, [], ◌∷◌, ℕ, suc, ◌≡◌, refl, true, ◌&&◌, ◌++◌, leb_int, ltb_int, Bytes, codes,
  All, Result, ok, err, arith,
}
use scriptor.Host.{parse_error_pattern, Host, FormatsFields, OrdersLevels}
use scriptor.Element.{Element, from_json}
use scriptor.Element.Fields.{from_json-level_range}
use scriptor.Processor.{Processor, recover, decode, process}
use scriptor.Processor.Drain.{drain, drain_induction}

module _ (h : Host) where
  error_line :
      FormatsFields h
      → (what : Bytes)
      → h.format parse_error_pattern (what ∷ []) ≡ codes "Scriptor Json Parse Error: " ++ what
  error_line ff what =
      ff.in_turn (codes "Scriptor Json Parse Error: ") [] what refl refl
      ∙ ap (λ l. codes "Scriptor Json Parse Error: " ++ l) (append-nil what)

  -- A text that `from_json` rejects gives an element too: critical, with the exception's text,
  -- and dated by a further reading of the clock.
  decode_rejected :
      FormatsFields h
      → (text : Bytes) (calls calls' : ℕ) (what : Bytes)
      → from_json h text calls ≡ (err what, calls')
      → decode h text calls ≡ (
        record {
          time = h.now calls';
          level = h.critical;
          message = codes "Scriptor Json Parse Error: " ++ what;
        },
        suc calls',
      )
  unfolding decode
  decode_rejected ff text calls calls' what e = rw (e, decode, recover, error_line ff what)

  abbrev pub InRange : Element → Type 0
  InRange e = leb_int h.trace e.level && ltb_int e.level h.n_levels ≡ true

  recover-InRange :
      OrdersLevels h
      → (r : Result Element) (calls : ℕ) → ((e : Element) → r ≡ ok e → InRange e)
      → InRange (recover h r calls).0
  unfolding recover
  recover-InRange o (ok e) calls read = read e refl
  recover-InRange o (err what) calls read = ground (arith, o.trace_le_critical, o.critical_lt)

  decode-InRange : OrdersLevels h → (text : Bytes) (calls : ℕ) → InRange (decode h text calls).0
  unfolding decode
  decode-InRange o text calls =
      let (r, calls') = from_json h text calls in
      recover-InRange o r calls' (λ e made. from_json-level_range h o text calls made)

  -- Every element that the processor returns, for good frames and for bad ones, has a level from
  -- `trace` up to and not including `n_levels`.
  pub process-InRange :
      OrdersLevels h
      → (p : Processor) (received : Bytes) (calls : ℕ)
      → All InRange (process h p received calls).0.0
  unfolding process drain
  process-InRange o p received calls =
      drain_induction h (λ current calls r. All InRange r.0) (λ current calls e. tt)
        (λ current calls text beyond r e ih. (decode-InRange o text calls, ih))
        (p.current ++ received) calls
