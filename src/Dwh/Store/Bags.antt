-- ===== src/Dwh/Store/Bags.antt =====
-- What the store promises (modules/data-warehouse/include/dwh/timeseries.hpp) against `InMemoryStore`
-- (modules/data-warehouse/src/timeseries_store.cpp): it is a bag of rows. A call puts rows in or asks for
-- those of a channel in a closed interval; the abstract answer has no order.
use mathlib.Core.Quot
use mathlib.Core.Quot.{Quot, Quot-set}
use lemuel_quant_core.Base.{
  ℕ, ◌≡◌, length, refl, sym, ap, ap₂, ◌∙◌, Bool, ◌&&◌, List, [], ◌∷◌, ◌++◌, arith, map,
}
use lemuel_quant_core.Base.Bytes.{Bytes}
use lemuel_quant_core.Dwh.{Row}
use lemuel_quant_core.Dwh.Store.{append, append_batch, query, keep, is_within}
use lemuel_quant_core.Dwh.Store.Arrivals.{is_on, count, count-append, keep-keep, query-append_batch}

module _ {ℓ} {D : Type ℓ} where
  -- Two lists hold the same rows, as often: every test counts as many in both.
  abbrev SameRows : List (Row D) → List (Row D) → Type ℓ
  SameRows xs ys = (p : Row D → Bool) → count p xs ≡ count p ys

abbrev Bag {ℓ} : Type ℓ → Type ℓ
Bag D = Quot (SameRows {D = D})

pub data Call {ℓ} (D : Type ℓ) : Type ℓ where
  put : Row D → Call D
  put_batch : List (Row D) → Call D
  ask : Bytes → ℕ → ℕ → Call D

module _ {ℓ} {D : Type ℓ} where
  pub SameRows-snoc :
      (rows xs ys : List (Row D)) → SameRows xs ys → SameRows (xs ++ rows) (ys ++ rows)
  SameRows-snoc rows xs ys h p = omega (arith, h p, count-append p xs rows, count-append p ys rows)

  pub SameRows-keep :
      (q : Row D → Bool) (xs ys : List (Row D)) → SameRows xs ys → SameRows (keep q xs) (keep q ys)
  SameRows-keep q xs ys h p =
      ap length (keep-keep p q xs) ∙ h (λ r. q r && p r) ∙ sym (ap length (keep-keep p q ys))

  abbrev pub put_all : List (Row D) → Bag D → Bag D
  put_all rows =
      Quot.lift Quot-set (λ xs. Quot.mk (xs ++ rows))
        (λ xs ys h. Quot.sound (SameRows-snoc rows xs ys h))

  abbrev pub select : (Row D → Bool) → Bag D → Bag D
  select q =
      Quot.lift Quot-set (λ xs. Quot.mk (keep q xs))
        (λ xs ys h. Quot.sound (SameRows-keep q xs ys h))

  -- The answers of the abstract store.
  abbrev pub promised : List (Call D) → Bag D → List (Bag D)
  promised [] b = []
  promised (put r ∷ calls) b = promised calls (put_all (r ∷ []) b)
  promised (put_batch rows ∷ calls) b = promised calls (put_all rows b)
  promised (ask channel from_ns to_ns ∷ calls) b =
      select (λ r. is_on channel r && is_within from_ns to_ns r) b ∷ promised calls b

  -- Those of the store in memory.
  abbrev pub answered :
      (List (Row D) → List (Row D))
      → List (Call D)
      → List (Bytes × List (Row D))
      → List (List (Row D))
  answered sort [] m = []
  answered sort (put r ∷ calls) m = answered sort calls (append r m)
  answered sort (put_batch rows ∷ calls) m = answered sort calls (append_batch rows m)
  answered sort (ask channel from_ns to_ns ∷ calls) m =
      query sort m channel from_ns to_ns ∷ answered sort calls m

  append_batch-append :
      (xs ys : List (Row D)) (m : List (Bytes × List (Row D)))
      → append_batch ys (append_batch xs m) ≡ append_batch (xs ++ ys) m
  unfolding append_batch
  append_batch-append [] ys m = refl
  append_batch-append (x ∷ xs) ys m = append_batch-append xs ys (append x m)

  append_batch-snoc :
      (rows : List (Row D)) (r : Row D) (m : List (Bytes × List (Row D)))
      → append r (append_batch rows m) ≡ append_batch (rows ++ r ∷ []) m
  unfolding append_batch
  append_batch-snoc rows r m = append_batch-append rows (r ∷ []) m

  module _ (sort : List (Row D) → List (Row D))
      (keeps : (p : Row D → Bool) (rows : List (Row D)) → count p (sort rows) ≡ count p rows) where
    keeps_all :
        (q : Row D → Bool) (rows : List (Row D)) → SameRows (sort (keep q rows)) (keep q rows)
    keeps_all q rows p = keeps p (keep q rows)

    -- If the sort neither loses nor repeats rows, every sequence of calls on the empty store gets the
    -- answers that the bag of rows gives, up to their order.
    pub answered-promised :
        (calls : List (Call D)) (rows : List (Row D))
        → map Quot.mk (answered sort calls (append_batch rows [])) ≡ promised calls (Quot.mk rows)
    answered-promised [] rows = refl
    answered-promised (put r ∷ calls) rows =
        rw (append_batch-snoc rows r []) (answered-promised calls (rows ++ r ∷ []))
    answered-promised (put_batch more ∷ calls) rows =
        rw (append_batch-append rows more []) (answered-promised calls (rows ++ more))
    answered-promised (ask channel from_ns to_ns ∷ calls) rows =
        ap₂ ◌∷◌
          (ap Quot.mk (query-append_batch sort rows channel from_ns to_ns)
            ∙ Quot.sound (keeps_all (λ r. is_on channel r && is_within from_ns to_ns r) rows))
          (answered-promised calls rows)
