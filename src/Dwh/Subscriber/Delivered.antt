-- ===== src/Dwh/Subscriber/Delivered.antt =====
-- Publications of a feed as the replies of the subscriber (modules/data-warehouse/src/redis_subscriber.cpp).
use lemuel_quant_core.Base.{
  ℕ, suc, ◌≡◌, refl, ap, sym, subst, ◌∙◌, Bool, some, List, [], ◌∷◌, map, All, if◌then◌else◌,
}
use lemuel_quant_core.Base.Bytes.{Bytes, lit}
use lemuel_quant_core.Feed.{Double, Trade}
use lemuel_quant_core.Dwh.{Row}
use lemuel_quant_core.Dwh.Ingest.Published.{Solid}
use lemuel_quant_core.Dwh.Store.{query, keep, is_within}
use lemuel_quant_core.Dwh.Subscriber.{Reply, array, session}
use lemuel_quant_core.Dwh.Subscriber.Published.{
  Source, Arrival, published, publication, trades_in, IsReadable, to_reply, rows_of, session-query,
}

-- The replies that publications come as, the i-th at the time `clock i`.
abbrev pub delivered : (ℕ → ℕ) → Bytes → ℕ → List (Bytes × Bytes) → List (ℕ × Reply)
delivered clock pattern_text i [] = []
delivered clock pattern_text i ((channel, payload) ∷ publications) =
    (clock i, array (lit "pmessage" ∷ pattern_text ∷ channel ∷ payload ∷ []))
    ∷ delivered clock pattern_text (suc i) publications

module _ {ℓ} {D : Type ℓ} (source : Source) (clock : ℕ → ℕ) (pattern_text : Bytes) where
  abbrev pub arrivals_of : ℕ → List (Trade D) → List (Arrival D)
  arrivals_of i [] = []
  arrivals_of i (t ∷ ts) = published pattern_text (clock i) source t ∷ arrivals_of (suc i) ts

  trades_in-arrivals_of : (i : ℕ) (ts : List (Trade D)) → trades_in (arrivals_of i ts) ≡ ts
  trades_in-arrivals_of i [] = refl
  trades_in-arrivals_of i (t ∷ ts) = ap (◌∷◌ t) (trades_in-arrivals_of (suc i) ts)

module _ {ℓ} {D : Type ℓ} ⦃d : Double D⦄ where
  open d use {stod, print}

  delivered-arrivals_of :
      (source : Source) (clock : ℕ → ℕ) (pattern_text : Bytes) (i : ℕ) (ts : List (Trade D))
      → delivered clock pattern_text i (map (publication source) ts)
        ≡ map to_reply (arrivals_of source clock pattern_text i ts)
  delivered-arrivals_of source clock pattern_text i [] = refl
  delivered-arrivals_of source clock pattern_text i (t ∷ ts) =
      ap (◌∷◌ (to_reply (published pattern_text (clock i) source t)))
        (delivered-arrivals_of source clock pattern_text (suc i) ts)

  module _ (rounded : D → D) (side_of : Bool → D)
      (reads_side : (b : Bool) → stod (if b then lit "1" else lit "2") ≡ some (side_of b))
      (solid : (x : D) → Solid (print x)) where
    -- A query behind the delivered publications of some trades sorts their rows.
    pub delivered-query :
        (source : Source) (clock : ℕ → ℕ) (pattern_text : Bytes)
        (publications : List (Bytes × Bytes)) (ts : List (Trade D))
        (sort : List (Row D) → List (Row D)) (from_ns to_ns : ℕ)
        → publications ≡ map (publication source) ts
        → All (IsReadable rounded) ts
        → (m : List (Bytes × List (Row D))) × (session
              (delivered clock pattern_text 0 publications)
              []
            ≡ some m)
          × (query sort m (lit "trade") from_ns to_ns
              ≡ sort (
                  keep
                    (is_within from_ns to_ns)
                    (rows_of rounded side_of (arrivals_of source clock pattern_text 0 ts))))
    delivered-query source clock pattern_text publications ts sort from_ns to_ns e q =
        let arrivals = arrivals_of source clock pattern_text 0 ts in
        let (m, s, k) = session-query rounded side_of reads_side solid sort arrivals from_ns to_ns (
          subst (All (IsReadable rounded))
            (sym (trades_in-arrivals_of source clock pattern_text 0 ts)) q) in
        (
          m,
          ap (λ ps. session (delivered clock pattern_text 0 ps) []) e
              ∙ ap (λ rs. session rs []) (delivered-arrivals_of source clock pattern_text 0 ts)
              ∙ s,
          k,
        )
