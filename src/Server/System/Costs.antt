-- ===== src/Server/System/Costs.antt =====
-- How many steps the threads of a context that is stopped have left.
use scriptor.Prelude.{
  put_self, put_other, sum, sum_less, all_or_one, ℕ, ◌+◌, ◌-◌, ◌<◌, ◌≡◌, ◌≢◌, refl, sym, subst, ap,
  ◌∙◌, ◌⊎◌, inl, inr, put, put_all, length, List, arith,
}
use scriptor.Acceptor.{Acceptor}
use scriptor.Server.System.{
  Stage, quiet, pushing, rearming, Client, Post, polling, serving, accepting, gone, leaving,
  Station, System, rearm,
}
use scriptor.Server.System.Seats.{Exclusive}

has_left : (p : Post) → (p ≡ gone) ⊎ (p ≢ gone)
has_left polling = inr (λ q. cc)
has_left (serving k) = inr (λ q. cc)
has_left (accepting j) = inr (λ q. cc)
has_left (leaving k) = inr (λ q. cc)
has_left gone = inl refl

-- One thread that has not left, or all have.
pub find_thread :
    (t : ℕ → Post) (n : ℕ) → ((x : ℕ) → x < n → t x ≡ gone) ⊎ ((x : ℕ) × (x < n) × (t x ≢ gone))
find_thread t = all_or_one (λ x. has_left (t x))

polls : (p : Post) → (p ≡ polling) ⊎ (p ≢ polling)
polls polling = inl refl
polls (serving k) = inr (λ q. cc)
polls (accepting j) = inr (λ q. cc)
polls (leaving k) = inr (λ q. cc)
polls gone = inr (λ q. cc)

-- One thread that does not poll, or all do.
pub find_busy :
    (t : ℕ → Post) (n : ℕ)
    → ((x : ℕ) → x < n → t x ≡ polling) ⊎ ((x : ℕ) × (x < n) × (t x ≢ polling))
find_busy t = all_or_one (λ x. polls (t x))

-- The steps of a callback that stands there.
abbrev pub steps_left : ℕ → Stage → ℕ
steps_left loggers quiet = 0
steps_left loggers (pushing j elements) = (loggers - j) + 2
steps_left loggers rearming = 1

-- The steps of a thread until it has left a context that is stopped, with so many acceptors.
abbrev pub cost : ℕ → ℕ → (ℕ → Client) → Post → ℕ
cost loggers acceptors client polling = 1
cost loggers acceptors client (serving k) = 2 + steps_left loggers (client k).stage
cost loggers acceptors client (accepting j) = (acceptors - j) + 2
cost loggers acceptors client (leaving k) = 2
cost loggers acceptors client gone = 0

cost-elsewhere :
    (loggers acceptors : ℕ) (f : ℕ → Client) (k : ℕ) (c : Client) (p : Post)
    → p ≢ serving k
    → cost loggers acceptors (put f k c) p ≡ cost loggers acceptors f p
cost-elsewhere loggers acceptors f k c polling n = refl
cost-elsewhere loggers acceptors f k c (accepting j) n = refl
cost-elsewhere loggers acceptors f k c (leaving j) n = refl
cost-elsewhere loggers acceptors f k c gone n = refl
cost-elsewhere loggers acceptors f k c (serving j) n =
    put_all
      (λ i (d : Client).
        k ≢ i → 2 + steps_left loggers d.stage ≡ 2 + steps_left loggers (f i).stage)
      f k c (λ i e m. refl) (λ e. absurd (e refl)) j (λ e. n (ap serving (sym e)))

-- The steps of all threads until `m_ioc` has none.
unfoldable pub remaining : ℕ → ℕ → System → ℕ
remaining threads loggers s =
    sum (λ x. cost loggers (length s.acceptors) s.client (s.thread x)) threads

-- A step of a thread in the callback of `k`, which changes this session and its own place at most.
serving_less :
    (threads loggers : ℕ) (s : System) (x k : ℕ) (c : Client) (f : ℕ → Post)
    → Exclusive s
    → x < threads
    → s.thread x ≡ serving k
    → ((y : ℕ) → x ≢ y → f y ≡ s.thread y)
    → cost loggers (length s.acceptors) (put s.client k c) (f x)
      < 2 + steps_left loggers (s.client k).stage
    → sum (λ y. cost loggers (length s.acceptors) (put s.client k c) (f y)) threads
      < remaining threads loggers s
unfolding remaining
serving_less threads loggers s x k c f v lt a same less =
    let n = length s.acceptors in
    sum_less _ _ threads x lt
      (λ y d.
        ap (cost loggers n (put s.client k c)) (same y d)
        ∙ cost-elsewhere loggers n s.client k c (s.thread y) (λ b. d (v.single x y k a b)))
      (subst (λ p. cost loggers n (put s.client k c) (f x) < cost loggers n s.client p) (sym a)
        less)

-- The callback of `k` goes on to a stage that is nearer to its end.
pub stage_less :
    (threads loggers : ℕ) (s : System) (x k : ℕ) (c : Client) (y : Stage) (g : ℕ → Station)
    → Exclusive s
    → x < threads
    → s.thread x ≡ serving k
    → (s.client k).stage ≡ y
    → steps_left loggers c.stage < steps_left loggers y
    → remaining threads loggers (record s { client = put s.client k c; station = g })
      < remaining threads loggers s
stage_less threads loggers s x k c y g v lt a b less =
    let n = length s.acceptors in
    unfold remaining in
    serving_less threads loggers s x k c s.thread v lt a (λ z d. refl)
      (subst (λ p. cost loggers n (put s.client k c) p < 2 + steps_left loggers (s.client k).stage)
        (sym a)
        (omega (
          arith,
          less,
          ap (λ (d : Client). steps_left loggers d.stage) (put_self s.client k c),
          ap (steps_left loggers) b,
        )))

-- The callback of `k` asks for more bytes, and its thread is on its way out of it.
pub rearms_less :
    (threads loggers : ℕ) (s : System) (x k : ℕ)
    → Exclusive s
    → x < threads
    → s.thread x ≡ serving k
    → (s.client k).stage ≡ rearming
    → remaining threads loggers (record s {
      thread = put s.thread x (leaving k);
      client = put s.client k (rearm (s.client k));
    })
      < remaining threads loggers s
rearms_less threads loggers s x k v lt a b =
    let c = rearm (s.client k) in
    let n = length s.acceptors in
    unfold remaining in
    serving_less threads loggers s x k c (put s.thread x (leaving k)) v lt a
      (put_other s.thread x (leaving k))
      (subst (λ p. cost loggers n (put s.client k c) p < 2 + steps_left loggers (s.client k).stage)
        (sym (put_self s.thread x (leaving k)))
        (subst (λ y. 2 < 2 + steps_left loggers y) (sym b) (omega arith)))

-- A thread goes to a place that is nearer to its end, and the sessions stay.
pub place_less :
    (threads loggers : ℕ) (s : System) (accs : List Acceptor) (x : ℕ) (p q : Post)
    → x < threads
    → s.thread x ≡ q
    → length accs ≡ length s.acceptors
    → cost loggers (length s.acceptors) s.client p < cost loggers (length s.acceptors) s.client q
    → remaining threads loggers (record s { acceptors = accs; thread = put s.thread x p })
      < remaining threads loggers s
unfolding remaining
place_less threads loggers s accs x p q lt a len less =
    let n = length s.acceptors in
    subst
      (λ m.
        sum (λ y. cost loggers m s.client (put s.thread x p y)) threads
        < remaining threads loggers s)
      (sym len)
      (sum_less _ _ threads x lt (λ y d. ap (cost loggers n s.client) (put_other s.thread x p y d))
        (subst (λ r. r < cost loggers n s.client (s.thread x))
          (sym (ap (cost loggers n s.client) (put_self s.thread x p)))
          (subst (λ r. cost loggers n s.client p < cost loggers n s.client r) (sym a) less)))
