-- ===== src/Server/System/Seats.antt =====
-- What the places of the threads say of the sessions.
use scriptor.Prelude.{
  ℕ, suc, ◌<◌, ◌≡◌, ◌≢◌, refl, sym, subst, ap, ◌∙◌, inl, inr, List, [], ◌∷◌, put, put_all, put_eq,
  arith,
}
use scriptor.Element.{Element}
use scriptor.Acceptor.{Acceptor}
use scriptor.Server.System.{
  quiet, Client, Post, polling, serving, accepting, gone, leaving, System, next_stage,
}

pub next_stage-ne-quiet : (es : List Element) → next_stage es ≢ quiet
next_stage-ne-quiet [] q = cc
next_stage-ne-quiet (e ∷ es) q = cc

-- A thread in the callback of a session has been given one that is open and whose callback runs.
abbrev pub Seated : ℕ → (ℕ → Client) → Post → Type 0
Seated opened client polling = Unit
Seated opened client (serving k) = (k < opened) × ((client k).stage ≢ quiet)
Seated opened client (accepting j) = Unit
Seated opened client (leaving k) = Unit
Seated opened client gone = Unit

-- No two threads are in callbacks of the same session.
pub record Exclusive (s : System) : Type 0 where
  pub seated : (x : ℕ) → Seated s.opened s.client (s.thread x)
  pub single : (x y k : ℕ) → s.thread x ≡ serving k → s.thread y ≡ serving k → x ≡ y

pub Seated-put :
    (n : ℕ) (f : ℕ → Client) (k : ℕ) (c : Client) (p : Post)
    → ((f k).stage ≢ quiet → c.stage ≢ quiet)
    → Seated n f p
    → Seated n (put f k c) p
Seated-put n f k c polling b v = tt
Seated-put n f k c (accepting j) b v = tt
Seated-put n f k c (leaving j) b v = tt
Seated-put n f k c gone b v = tt
Seated-put n f k c (serving j) b v = (
  v.0,
  put_all (λ i (d : Client). (f i).stage ≢ quiet → d.stage ≢ quiet) f k c (λ i d s. s) b j v.1,
)

pub Seated-elsewhere :
    (n : ℕ) (f : ℕ → Client) (k : ℕ) (c : Client) (p : Post)
    → p ≢ serving k
    → Seated n f p
    → Seated n (put f k c) p
Seated-elsewhere n f k c polling b v = tt
Seated-elsewhere n f k c (accepting j) b v = tt
Seated-elsewhere n f k c (leaving j) b v = tt
Seated-elsewhere n f k c gone b v = tt
Seated-elsewhere n f k c (serving j) b v = (
  v.0,
  put_all (λ i (d : Client). k ≢ i → (f i).stage ≢ quiet → d.stage ≢ quiet) f k c (λ i d e s. s)
      (λ e. absurd (e refl)) j (λ e. b (ap serving (sym e))) v.1,
)

pub Seated-opens :
    (n : ℕ) (f : ℕ → Client) (c : Client) (p : Post) → Seated n f p → Seated (suc n) (put f n c) p
Seated-opens n f c polling v = tt
Seated-opens n f c (accepting j) v = tt
Seated-opens n f c (leaving k) v = tt
Seated-opens n f c gone v = tt
Seated-opens n f c (serving j) (lt, served) =
    let (lt', served') =
      Seated-elsewhere n f n c (serving j) (λ e. (let q : j ≡ n = cc in omega (arith, q, lt)))
        (lt, served) in
    (omega (arith, lt), served')

pub serving_seated :
    (s : System) (x k : ℕ) → Exclusive s → s.thread x ≡ serving k → (s.client k).stage ≢ quiet
serving_seated s x k v e = (subst (Seated s.opened s.client) e (v.seated x)).1

pub polling-Seated :
    (n : ℕ) (f : ℕ → Client) (t : ℕ → Post) (x : ℕ) (p : Post)
    → Seated n f p
    → ((y : ℕ) → Seated n f (t y))
    → (y : ℕ) → Seated n f (put t x p y)
polling-Seated n f t x p new v = put_all (λ y q. Seated n f q) t x p (λ y d. v y) new

-- Where a thread leaves a callback.
pub single_less :
    (t : ℕ → Post) (x : ℕ) (p : Post)
    → ((k : ℕ) → p ≢ serving k)
    → ((x y k : ℕ) → t x ≡ serving k → t y ≡ serving k → x ≡ y)
    → (y z k : ℕ) → put t x p y ≡ serving k
    → put t x p z ≡ serving k
    → y ≡ z
single_less t x p free v y z k a b = elim (put_eq t x p y (serving k) a) [
  | inl (e, q) ↦ absurd (free k q)
  | inr (n, q) ↦ elim (put_eq t x p z (serving k) b) [
    | inl (f, r) ↦ absurd (free k r)
    | inr (m, r) ↦ v y z k q r
  ]
]

-- Where a thread enters the callback of a session that no thread serves.
pub single_more :
    (t : ℕ → Post) (x j : ℕ)
    → ((y : ℕ) → t y ≢ serving j)
    → ((x y k : ℕ) → t x ≡ serving k → t y ≡ serving k → x ≡ y)
    → (y z k : ℕ) → put t x (serving j) y ≡ serving k
    → put t x (serving j) z ≡ serving k
    → y ≡ z
single_more t x j free v y z k a b = elim (put_eq t x (serving j) y (serving k) a) [
  | inl (e, q) ↦ elim (put_eq t x (serving j) z (serving k) b) [
    | inl (f, r) ↦ sym e ∙ f
    | inr (m, r) ↦ absurd (free z (r ∙ sym q))
  ]
  | inr (n, q) ↦ elim (put_eq t x (serving j) z (serving k) b) [
    | inl (f, r) ↦ absurd (free y (q ∙ sym r))
    | inr (m, r) ↦ v y z k q r
  ]
]

-- Where a thread goes to a place that is in no callback of a session.
pub moved :
    {accs : List Acceptor} (s : System) (x : ℕ) (p : Post)
    → Seated s.opened s.client p
    → ((k : ℕ) → p ≢ serving k)
    → Exclusive s
    → Exclusive (record s { acceptors = accs; thread = put s.thread x p })
moved s x p new free v = record {
  seated = polling-Seated s.opened s.client s.thread x p new v.seated;
  single = single_less s.thread x p free v.single;
}
