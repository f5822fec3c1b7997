-- ===== src/Feed/Reading.antt =====
-- The reading loop of both feed clients, for the handling of one frame
-- (modules/stock-feed/src/kis_client.cpp, modules/market-feed/src/binance_client.cpp).
use lemuel_quant_core.Base.{
  ℕ, ◌≡◌, refl, ap, Bool, true, false, Bool-cases, inl, inr, Option, none, some, List, [], ◌∷◌,
  if◌then◌else◌,
}
use lemuel_quant_core.Base.Bytes.{Bytes}
use lemuel_quant_core.Feed.{Trade, OrderBook}

-- What a frame leads to: nothing, a call of a handler, or an exception out of the reading loop.
pub data Outcome {ℓ} (D : Type ℓ) : Type ℓ where
  ignored : Outcome D
  traded : Trade D → Outcome D
  booked : OrderBook D → Outcome D
  thrown : Outcome D

module _ {ℓ} {D : Type ℓ} where
  abbrev pub as_trade : Option (Trade D) → Outcome D
  as_trade none = thrown
  as_trade (some t) = traded t

  abbrev pub as_book : Option (OrderBook D) → Outcome D
  as_book none = thrown
  as_book (some b) = booked b

  abbrev is_thrown : Outcome D → Bool
  is_thrown thrown = true
  is_thrown ignored = false
  is_thrown (traded t) = false
  is_thrown (booked b) = false

  -- What each frame leads to, up to the first that throws. Each frame has the time at which it is read.
  unfoldable pub read_frames : (ℕ → Bytes → Outcome D) → List (ℕ × Bytes) → List (Outcome D)
  read_frames handle [] = []
  read_frames handle ((now, sv) ∷ frames) =
      let rest = read_frames handle frames in
      let out = handle now sv in if is_thrown out then [] else out ∷ rest

  abbrev pub outcomes : (ℕ → Bytes → Outcome D) → List (ℕ × Bytes) → List (Outcome D)
  outcomes handle [] = []
  outcomes handle ((now, sv) ∷ frames) = handle now sv ∷ outcomes handle frames

  abbrev pub until_thrown : List (Outcome D) → List (Outcome D)
  until_thrown [] = []
  until_thrown (o ∷ os) = if is_thrown o then [] else o ∷ until_thrown os

  -- The trades among the outcomes.
  abbrev pub trades_of : List (Outcome D) → List (Trade D)
  trades_of [] = []
  trades_of (ignored ∷ os) = trades_of os
  trades_of (traded t ∷ os) = t ∷ trades_of os
  trades_of (booked b ∷ os) = trades_of os
  trades_of (thrown ∷ os) = trades_of os

  abbrev pub IsBookless : Outcome D → Type 0
  IsBookless ignored = Unit
  IsBookless (traded t) = Unit
  IsBookless (booked b) = ⊥
  IsBookless thrown = Unit

  pub as_trade-IsBookless : (o : Option (Trade D)) → IsBookless (as_trade o)
  as_trade-IsBookless none = tt
  as_trade-IsBookless (some t) = tt

  -- A frame that throws ends the connection: the frames before the first such one are handled in their
  -- order, and neither it nor any frame behind it is.
  pub read_frames-until_thrown :
      (handle : ℕ → Bytes → Outcome D) (frames : List (ℕ × Bytes))
      → read_frames handle frames ≡ until_thrown (outcomes handle frames)
  unfolding read_frames
  read_frames-until_thrown handle [] = refl
  read_frames-until_thrown handle ((now, sv) ∷ frames) =
      elim (Bool-cases (is_thrown (handle now sv))) [
        | inl t ↦ rw (t, read_frames) refl
        | inr f ↦
            rw (f, read_frames) (ap (◌∷◌ (handle now sv)) (read_frames-until_thrown handle frames))
      ]
