-- ===== src/Server/Dispatch/Fanout.antt =====
-- What a session hands on reaches every logger.
use scriptor.Prelude.{
  ℕ, ◌≡◌, refl, sym, ap, ap₂, ◌∙◌, none, List, [], ◌∷◌, ◌++◌, map, append-nil, append_assoc, concat,
  Bytes,
}
use scriptor.Host.{Host}
use scriptor.Element.{Element}
use scriptor.Processor.{first_frame, process}
use scriptor.Socket.{Completion, completed, failed}
use scriptor.Session.{Session, run_session}
use scriptor.Session.Stream.{run_session_life}
use scriptor.Logger.{Logger, push}
use scriptor.Logger.Order.{batch, in_hand}
use scriptor.Server.Dispatch.{push_each, dispatch, dispatch_all}

push_each-map : (ls : List Logger) (es : List Element) → push_each ls es ≡ map (λ l. push l es) ls
unfolding push_each
push_each-map [] es = refl
push_each-map (l ∷ ls) es = ap (λ rest. push l es ∷ rest) (push_each-map ls es)

pub dispatch-map : (ls : List Logger) (es : List Element) → dispatch ls es ≡ map (λ l. push l es) ls
unfolding dispatch
dispatch-map [] es = refl
dispatch-map (l ∷ []) es = refl
dispatch-map (l ∷ m ∷ ls) es = push_each-map (l ∷ m ∷ ls) es

pushed_on :
    (ls : List Logger) (es : List Element)
    → (map in_hand (map (λ l. push l es) ls) ≡ map (λ l. in_hand l ++ es) ls)
      × (map (λ (l : Logger). l.worker) (map (λ l. push l es) ls)
          ≡ map (λ (l : Logger). l.worker) ls)
unfolding push
pushed_on [] es = (refl, refl)
pushed_on (l ∷ ls) es =
    let (hands, workers) = pushed_on ls es in
    (
      ap₂ ◌∷◌ (sym (append_assoc (batch l.worker) l.elements es)) hands,
      ap (λ ws. l.worker ∷ ws) workers,
    )

-- One push of a session: with one logger, where the elements are moved, and with several, where
-- each gets a copy, every logger has the elements behind all that it had in hand, in the same
-- order, and no worker is disturbed.
dispatch-in_hand :
    (ls : List Logger) (es : List Element)
    → (map in_hand (dispatch ls es) ≡ map (λ l. in_hand l ++ es) ls)
      × (map (λ (l : Logger). l.worker) (dispatch ls es) ≡ map (λ (l : Logger). l.worker) ls)
dispatch-in_hand ls es =
    let (hands, workers) = pushed_on ls es in
    (
      ap (map in_hand) (dispatch-map ls es) ∙ hands,
      ap (map (λ (l : Logger). l.worker)) (dispatch-map ls es) ∙ workers,
    )

map-append_fused :
    (hands : List (List Element)) (es fs : List Element)
    → map (λ h. h ++ fs) (map (λ h. h ++ es) hands) ≡ map (λ h. h ++ (es ++ fs)) hands
map-append_fused [] es fs = refl
map-append_fused (h ∷ hands) es fs = ap₂ ◌∷◌ (append_assoc h es fs) (map-append_fused hands es fs)

map-append_nil : (hands : List (List Element)) → map (λ h. h ++ []) hands ≡ hands
map-append_nil [] = refl
map-append_nil (h ∷ hands) = ap₂ ◌∷◌ (append-nil h) (map-append_nil hands)

map-in_hand :
    (ls : List Logger) (es : List Element)
    → map (λ l. in_hand l ++ es) ls ≡ map (λ h. h ++ es) (map in_hand ls)
map-in_hand [] es = refl
map-in_hand (l ∷ ls) es = ap (λ rest. (in_hand l ++ es) ∷ rest) (map-in_hand ls es)

dispatch_all-in_hand :
    (ess : List (List Element)) (ls : List Logger)
    → map in_hand (dispatch_all ls ess) ≡ map (λ h. h ++ concat ess) (map in_hand ls)
unfolding dispatch_all
dispatch_all-in_hand [] ls = sym (map-append_nil (map in_hand ls))
dispatch_all-in_hand (es ∷ ess) ls =
    dispatch_all-in_hand ess (dispatch ls es)
    ∙ (ap (map (λ h. h ++ concat ess)) ((dispatch-in_hand ls es).0 ∙ map-in_hand ls es)
        ∙ map-append_fused (map in_hand ls) es (concat ess))

-- From the wire to the loggers, for a session with one read pending and no whole frame in its
-- processor: after the client has sent its bytes, in whatever pieces, and a read has failed, the
-- pushes of the session have given every logger, behind what it had in hand, the elements that the
-- processor returns for all the bytes at once.
client-in_hand :
    (h : Host) (ls : List Logger) (chunks : List Bytes) (s : Session) (later : List Completion)
    (calls : ℕ)
    → s.socket.pending ≡ 1
    → first_frame s.processor.current ≡ none
    → let pushes = (run_session h s (map completed chunks ++ (failed ∷ later)) calls).0.0 in
      map in_hand (dispatch_all ls pushes)
      ≡ map (λ hand. hand ++ (process h s.processor (concat chunks) calls).0.0) (map in_hand ls)
client-in_hand h ls chunks s later calls e idle =
    dispatch_all-in_hand _ ls
    ∙ ap (λ o. map (λ hand. hand ++ o) (map in_hand ls))
        (ap (λ (o : (List Element × _) × ℕ). o.0.0)
          (run_session_life h chunks s later calls e idle).0)
