-- ===== src/Stock/Kis/Levels.antt =====
-- What `parse_h0stasp0` (modules/stock-feed/src/kis_client.cpp) reads from the fields of a message.
use lemuel_quant_core.Base.{
  ℕ, zero, suc, ◌+◌, ◌≤◌, ◌<◌, ◌≡◌, refl, true, Option, none, some, List, [], ◌∷◌, arith, ltb,
  length, get_or, take, drop, All, inl, inr, Bool-cases, ltb→lt, if◌then◌else◌,
}
use lemuel_quant_core.Base.Bytes.{Bytes}
use lemuel_quant_core.Base.Split.{split}
use lemuel_quant_core.Feed.{Double, PriceLevel, OrderBook}
use lemuel_quant_core.Stock.Kis.{
  to_double, read_levels, push_level, add_level, quantity_at, parse_h0stasp0,
}

drop_in : (f : List Bytes) (a : ℕ) → a < length f → drop a f ≡ get_or f a [] ∷ drop (a + 1) f
drop_in [] a h = absurd (omega arith)
drop_in (x ∷ f) zero h = refl
drop_in (x ∷ f) (suc a) h = rw (suc_add a) (drop_in f a (omega arith))
  where
    suc_add : (a : ℕ) → suc a + 1 ≡ suc (a + 1)
    suc_add a = omega arith

drop_out : (f : List Bytes) (a : ℕ) → length f ≤ a → drop a f ≡ []
drop_out [] zero h = refl
drop_out [] (suc a) h = refl
drop_out (x ∷ f) zero h = absurd (omega arith)
drop_out (x ∷ f) (suc a) h = drop_out f a (omega arith)

module _ {ℓ} {D : Type ℓ} ⦃d : Double D⦄ where
  open d use {nought, is_positive}

  abbrev Positive : PriceLevel D → Type 0
  Positive l = is_positive l.price ≡ true

  abbrev Bounded : ℕ → Option (List (PriceLevel D)) → Type 0
  Bounded n none = Unit
  Bounded n (some ls) = (length ls ≤ n) × All Positive ls

  push_level-Bounded :
      (n : ℕ) (p q : D) (ls : List (PriceLevel D))
      → Bounded n (some ls)
      → Bounded (suc n) (some (push_level p q ls))
  push_level-Bounded n p q ls (l, h) = elim (Bool-cases (is_positive p)) [
    | inl t ↦ rw t (omega arith, (t, h))
    | inr f ↦ rw f (omega arith, h)
  ]

  add_level-Bounded :
      (n : ℕ) (price quantity : Option D) (rest : Option (List (PriceLevel D)))
      → Bounded n rest
      → Bounded (suc n) (add_level price quantity rest)
  add_level-Bounded n none quantity rest h = tt
  add_level-Bounded n (some p) none rest h = tt
  add_level-Bounded n (some p) (some q) none h = tt
  add_level-Bounded n (some p) (some q) (some ls) h = push_level-Bounded n p q ls h

  Bounded-of_eq :
      (n : ℕ) (o : Option (List (PriceLevel D))) (ls : List (PriceLevel D))
      → Bounded n o
      → o ≡ some ls
      → (length ls ≤ n) × All Positive ls
  Bounded-of_eq n o ls h e = rw e at h

module _ {ℓ} (D : Type ℓ) ⦃d : Double D⦄ where
  read_levels-Bounded : (n a b : ℕ) (f : List Bytes) → Bounded n (read_levels {D = D} n a b f)
  unfolding read_levels
  read_levels-Bounded zero a b f = (omega arith, tt)
  read_levels-Bounded (suc n) a b f = elim (Bool-cases (ltb a (length f))) [
    | inl t ↦ rw t (add_level-Bounded n _ _ _ (read_levels-Bounded n (a + 1) (b + 1) f))
    | inr e ↦ rw e (omega arith, tt)
  ]

module _ {ℓ} {D : Type ℓ} ⦃d : Double D⦄ where
  open d use {nought, is_positive}

  -- Whatever message is parsed, the book has at most ten levels on each side, and each has a positive
  -- price.
  parse_h0stasp0_bounds :
      (now : ℕ) (msg symbol : Bytes) (ob : OrderBook D)
      → parse_h0stasp0 now msg symbol ≡ some ob
      → ((length ob.asks ≤ 10) × All Positive ob.asks)
        × ((length ob.bids ≤ 10) × All Positive ob.bids)
  unfolding parse_h0stasp0
  parse_h0stasp0_bounds now msg symbol ob h =
      let f = split b'^' msg in
      let (asks, bids) = parts (read_levels 10 3 23 f) (read_levels 10 13 33 f) h in
      (
        Bounded-of_eq 10 _ ob.asks (read_levels-Bounded D 10 3 23 f) asks,
        Bounded-of_eq 10 _ ob.bids (read_levels-Bounded D 10 13 33 f) bids,
      )
    where
      parts :
          (asks bids : Option (List (PriceLevel D)))
          → (elim asks [
            | none ↦ none
            | some as_ ↦ elim bids [
              | none ↦ none
              | some bs ↦ some (record {
                symbol = symbol;
                bids = bs;
                asks = as_;
                exchange_ts_ns = 0;
                local_ts_ns = now;
              })
            ]
          ])
            ≡ some ob
          → (asks ≡ some ob.asks) × (bids ≡ some ob.bids)
      parts (some as_) (some bs) e = ground arith
      parts none bs e = cc
      parts (some as_) none e = cc

  abbrev positive_levels : List (PriceLevel D) → List (PriceLevel D)
  positive_levels [] = []
  positive_levels (l ∷ ls) =
      let rest = positive_levels ls in if is_positive l.price then l ∷ rest else rest

  module _ (num : Bytes → D) where
    abbrev pub Numeric : Bytes → Type ℓ
    Numeric x = to_double x ≡ some (num x)

    -- Prices and quantities side by side; a missing quantity is zero.
    abbrev side_by_side : List Bytes → List Bytes → List (PriceLevel D)
    side_by_side [] qs = []
    side_by_side (p ∷ ps) [] = record { price = num p; quantity = nought } ∷ side_by_side ps []
    side_by_side (p ∷ ps) (q ∷ qs) = record { price = num p; quantity = num q } ∷ side_by_side ps qs

    -- Those of them whose price is positive.
    abbrev pub zip_levels : List Bytes → List Bytes → List (PriceLevel D)
    zip_levels ps qs = positive_levels (side_by_side ps qs)

    Numeric-at : (f : List Bytes) (a : ℕ) → All Numeric f → a < length f → Numeric (get_or f a [])
    Numeric-at [] a h l = absurd (omega arith)
    Numeric-at (x ∷ f) zero h l = h.0
    Numeric-at (x ∷ f) (suc a) h l = Numeric-at f a h.1 (omega arith)

    with_quantity :
        (p : Bytes) (ps f : List Bytes) (b : ℕ)
        → All Numeric f
        → add_level (some (num p)) (quantity_at f b) (some (zip_levels ps (drop (b + 1) f)))
          ≡ some (zip_levels (p ∷ ps) (drop b f))
    with_quantity p ps f b h = elim (Bool-cases (ltb b (length f))) [
      | inl t ↦ rw (t, Numeric-at f b h (ltb→lt _ _ t), drop_in f b (ltb→lt _ _ t)) refl
      | inr e ↦ rw (e, drop_out f b (ground arith), drop_out f (b + 1) (ground arith)) refl
    ]

    read_levels_lem :
        (n a b : ℕ) (f : List Bytes)
        → All Numeric f
        → read_levels n a b f ≡ some (zip_levels (take n (drop a f)) (drop b f))
    unfolding read_levels
    read_levels_lem zero a b f h = refl
    read_levels_lem (suc n) a b f h = elim (Bool-cases (ltb a (length f))) [
      | inl t ↦
          rw
            (
              t,
              read_levels_lem n (a + 1) (b + 1) f h,
              Numeric-at f a h (ltb→lt _ _ t),
              drop_in f a (ltb→lt _ _ t),
            )
            (with_quantity (get_or f a []) (take n (drop (a + 1) f)) f b h)
      | inr e ↦ rw (e, drop_out f a (ground arith)) refl
    ]

    -- If every field is empty or a number, the ask side is the fields 3 to 12 beside the quantities
    -- from field 23 on, and the bid side is the fields 13 to 22 beside those from field 33 on, each
    -- less the levels whose price is not positive; a missing quantity is zero.
    pub parse_h0stasp0_lem :
        (now : ℕ) (msg symbol : Bytes)
        → All Numeric (split b'^' msg)
        → let f = split b'^' msg in
          parse_h0stasp0 now msg symbol
          ≡ some (record {
            symbol = symbol;
            bids = zip_levels (take 10 (drop 13 f)) (drop 33 f);
            asks = zip_levels (take 10 (drop 3 f)) (drop 23 f);
            exchange_ts_ns = 0;
            local_ts_ns = now;
          })
    unfolding parse_h0stasp0
    parse_h0stasp0_lem now msg symbol h =
        let f = split b'^' msg in
        rw (read_levels_lem 10 3 23 f h, read_levels_lem 10 13 33 f h, parse_h0stasp0) refl
