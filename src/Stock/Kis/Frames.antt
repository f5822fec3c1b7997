-- ===== src/Stock/Kis/Frames.antt =====
-- Data frames of modules/stock-feed/src/kis_client.cpp, as they are sent and as they are handled.
use lemuel_quant_core.Base.{
  ℕ, ◌≡◌, refl, ◌≢◌, ◌∙◌, ap, Bool, true, false, List, [], ◌∷◌, ◌++◌, arith, All,
  take_append_length,
}
use lemuel_quant_core.Base.Bytes.{Bytes, lit, is_empty}
use lemuel_quant_core.Base.Split.{split, join, Free, split-join}
use lemuel_quant_core.Base.Find.{find-Free}
use lemuel_quant_core.Feed.{Double}
use lemuel_quant_core.Stock.Kis.{
  handle_frame, as_trade, trade_of_fields, parse_h0stcnt0, begins_with_brace, dispatch,
}

-- A data frame: a flag, the transaction id, a count, and the fields of the payload, symbol first.
abbrev pub payload : Bytes → Bytes → List Bytes → Bytes
payload symbol field fields = join b'^' (symbol ∷ field ∷ fields)

abbrev pub frame : Bytes → Bytes → Bytes → Bytes → Bytes
frame flag tr_id count body = join b'|' (flag ∷ tr_id ∷ count ∷ body ∷ [])

abbrev pub OpensData : Bytes → Type 0
OpensData [] = ⊥
OpensData (c ∷ s) = c ≢ b'{'

frame_opening :
    (flag rest : Bytes)
    → OpensData flag
    → (is_empty (flag ++ rest) ≡ false) × (begins_with_brace (flag ++ rest) ≡ false)
frame_opening [] rest h = elim h [ ]
frame_opening (c ∷ s) rest h = ground arith

module _ {ℓ} {D : Type ℓ} ⦃d : Double D⦄ where
  handle_parts :
      (on_trade on_book : Bool) (now : ℕ) (sv flag tr_id count body : Bytes)
      → is_empty sv ≡ false
      → begins_with_brace sv ≡ false
      → split b'|' sv ≡ flag ∷ tr_id ∷ count ∷ body ∷ []
      → handle_frame {D = D} on_trade on_book now sv ≡ dispatch on_trade on_book now tr_id body
  unfolding handle_frame
  handle_parts on_trade on_book now sv flag tr_id count body e b p = rw (e, b, p) refl

  dispatch_trade :
      (on_book : Bool) (now : ℕ) (symbol field : Bytes) (fields : List Bytes)
      → All (Free b'^') (symbol ∷ field ∷ fields)
      → dispatch {D = D} true on_book now (lit "H0STCNT0") (payload symbol field fields)
        ≡ as_trade (trade_of_fields now symbol (symbol ∷ field ∷ fields))
  unfolding parse_h0stcnt0
  dispatch_trade on_book now symbol field fields h =
      let rest = join b'^' (field ∷ fields) in
      rw (find-Free b'^' symbol rest h.0, dispatch)
        (ap (λ t. as_trade (trade_of_fields now t (split b'^' (payload symbol field fields))))
            (take_append_length symbol (b'^' ∷ rest))
          ∙ ap (λ t. as_trade (trade_of_fields now symbol t))
              (split-join b'^' symbol (field ∷ fields) h))

  -- A trade frame reaches the trade handler with exactly what its fields say, if no field holds a
  -- delimiter and the frame does not begin with a brace.
  pub handle_frame_trade :
      (on_book : Bool) (now : ℕ) (flag count symbol field : Bytes) (fields : List Bytes)
      → OpensData flag
      → All (Free b'^') (symbol ∷ field ∷ fields)
      → All (Free b'|') (flag ∷ lit "H0STCNT0" ∷ count ∷ payload symbol field fields ∷ [])
      → handle_frame {D = D} true on_book now
          (frame flag (lit "H0STCNT0") count (payload symbol field fields))
        ≡ as_trade (trade_of_fields now symbol (symbol ∷ field ∷ fields))
  unfolding handle_frame parse_h0stcnt0
  handle_frame_trade on_book now flag count symbol field fields o hf hb =
      let body = payload symbol field fields in
      let rest = join b'|' (lit "H0STCNT0" ∷ count ∷ body ∷ []) in
      let (full, data_) = frame_opening flag (b'|' ∷ rest) o in
      handle_parts true on_book now (frame flag (lit "H0STCNT0") count body) flag (lit "H0STCNT0")
        count body full data_ (split-join b'|' flag (lit "H0STCNT0" ∷ count ∷ body ∷ []) hb)
      ∙ dispatch_trade on_book now symbol field fields hf
