-- ===== src/Stock/Supervise/Follows.antt =====
-- The feed against the session (modules/stock-feed/src/main.cpp).
use lemuel_quant_core.Base.{
  ℕ, ◌≡◌, refl, some, List, [], ◌∷◌, ◌++◌, arith, if◌then◌else◌, inl, inr, ◌∙◌, Bool-cases,
  Option-cases,
}
use lemuel_quant_core.Feed.Lifecycle.{Client, Worker, IsValid, start, stop, step-IsValid, Event}
use lemuel_quant_core.Stock.Session.{state_at}
use lemuel_quant_core.Stock.Supervise.{is_tradeable, tick, Turn, turn, supervise}

abbrev after : ℕ → Client → Client
after now c =
    let on = is_tradeable (state_at now) in
    record c { running = on; worker = if on then Worker.looping else Worker.absent }

tick_lem : (now : ℕ) (c : Client) → IsValid c → tick now c ≡ some (after now c)
unfolding tick start stop
tick_lem now c v = elim (Bool-cases (is_tradeable (state_at now))) [
  | inl t ↦ rw t (ground arith)
  | inr f ↦ rw f (ground arith)
]

turn-IsValid :
    (t : Turn) (c : Client) → IsValid c → (c' : Client) × (turn t c ≡ some c') × IsValid c'
turn-IsValid Turn.failure c v = step-IsValid Event.failed c v
turn-IsValid (Turn.round now) c v = (after now c, tick_lem now c v, ground arith)

pub supervise-IsValid :
    (ts : List Turn) (c : Client)
    → IsValid c
    → (c' : Client) × (supervise ts c ≡ some c') × IsValid c'
unfolding supervise
supervise-IsValid [] c v = (c, refl, v)
supervise-IsValid (t ∷ ts) c v =
    let (c1, s, v1) = turn-IsValid t c v in
    let (c2, r, v2) = supervise-IsValid ts c1 v1 in (c2, rw (s, supervise) r, v2)

supervise-append :
    (ts us : List Turn) (c c' : Client)
    → supervise ts c ≡ some c'
    → supervise (ts ++ us) c ≡ supervise us c'
unfolding supervise
supervise-append [] us c c' h = ground arith
supervise-append (t ∷ ts) us c c' h = elim (Option-cases (turn t c)) [
  | inl e ↦ absurd (ground arith)
  | inr (c1, e) ↦ rw (e, supervise) (supervise-append ts us c1 c' (rw (e, supervise) at h))
]

one_round :
    (now : ℕ) (c : Client) → IsValid c → supervise (Turn.round now ∷ []) c ≡ some (after now c)
unfolding supervise
one_round now c v = rw (tick_lem now c v, supervise) refl

-- Whatever rounds and failures came before, a client that reconnects is never brought to
-- `std::terminate`, and right after each round its loop runs exactly if the session is tradeable then.
pub supervise-Follows :
    (ts : List Turn) (now : ℕ) (c : Client)
    → IsValid c
    → (c' : Client) × (supervise (ts ++ (Turn.round now ∷ [])) c ≡ some c')
      × (c'.running ≡ is_tradeable (state_at now))
      × (c'.worker ≡ (if is_tradeable (state_at now) then Worker.looping else Worker.absent))
supervise-Follows ts now c v =
    let (c1, r, v1) = supervise-IsValid ts c v in
    (
      after now c1,
      supervise-append ts (Turn.round now ∷ []) c c1 r ∙ one_round now c1 v1,
      refl,
      refl,
    )
