-- ===== src/Judge/Runner/Token.antt =====
-- `make_run_id` (modules/judge-engine/src/runner.cpp). The process id and the random number are
-- arguments, and the counter is the number of calls before, modulo 2 ^ 64.
use lemuel_quant_core.Base.{
  ℕ, zero, suc, ◌+◌, ◌-◌, ◌*◌, ◌/◌, ◌%◌, ◌^◌, ◌<◌, ◌≡◌, sym, ap, ◌∙◌, Bool-cases, inl, inr, List,
  [], ◌∷◌, ◌++◌, ltb, ◌==◌, if◌then◌else◌, arith,
}
use lemuel_quant_core.Base.Bytes.{Bytes, lit}
use lemuel_quant_core.Base.Split.{split, Free, split-join}

abbrev hex_digit : ℕ → ℕ
hex_digit n = if ltb n 10 then 48 + n else 87 + n

-- `std::hex` of a number: one digit for each round.
abbrev hex_from : ℕ → ℕ → Bytes → Bytes
hex_from zero n acc = acc
hex_from (suc fuel) n acc =
    let digit = hex_digit (n % 16) ∷ acc in
    let rest = hex_from fuel (n / 16) digit in if n / 16 == 0 then digit else rest

unfoldable hex : ℕ → Bytes
hex n = hex_from (suc n) n []

-- The id, and the counter behind the call.
unfoldable pub make_run_id : ℕ → ℕ → ℕ → Bytes × ℕ
unfolding hex
make_run_id pid counter random =
    (hex pid ++ (lit "-" ++ (hex counter ++ (lit "-" ++ hex random))), (counter + 1) % 2 ^ 64)

-- What a text of digits stands for.
abbrev value_from : ℕ → Bytes → ℕ
value_from n [] = n
value_from n (c ∷ s) = value_from (16 * n + (if ltb c 58 then c - 48 else c - 87)) s

hex_digit-value :
    (n : ℕ) → n < 16 → (if ltb (hex_digit n) 58 then hex_digit n - 48 else hex_digit n - 87) ≡ n
hex_digit-value n h = ground arith

value_from_digit :
    (m n : ℕ) (acc : Bytes)
    → 16 * m + n % 16 ≡ n
    → value_from m (hex_digit (n % 16) ∷ acc) ≡ value_from n acc
value_from_digit m n acc e =
    ap (λ d. value_from (16 * m + d) acc) (hex_digit-value (n % 16) (omega arith))
    ∙ ap (λ k. value_from k acc) e

value_from-hex_from :
    (fuel n : ℕ) (acc : Bytes) → n < fuel → value_from 0 (hex_from fuel n acc) ≡ value_from n acc
value_from-hex_from zero n acc h = absurd (omega arith)
value_from-hex_from (suc fuel) n acc h = elim (Bool-cases (n / 16 == 0)) [
  | inl t ↦ rw (t, hex_from) (value_from_digit 0 n acc (ground arith))
  | inr f ↦
      rw (f, hex_from)
        (value_from-hex_from fuel (n / 16) (hex_digit (n % 16) ∷ acc) (ground arith)
          ∙ value_from_digit (n / 16) n acc (omega arith))
]

hex-value : (n : ℕ) → value_from 0 (hex n) ≡ n
unfolding hex
hex-value n = value_from-hex_from (suc n) n [] (omega arith)

hex_from-Free : (fuel n : ℕ) (acc : Bytes) → Free 0x2D acc → Free 0x2D (hex_from fuel n acc)
hex_from-Free zero n acc h = h
hex_from-Free (suc fuel) n acc h = elim (Bool-cases (n / 16 == 0)) [
  | inl t ↦ rw (t, hex_from) (ground arith, h)
  | inr f ↦
      rw (f, hex_from) (hex_from-Free fuel (n / 16) (hex_digit (n % 16) ∷ acc) (ground arith, h))
]

hex-Free : (n : ℕ) → Free 0x2D (hex n)
unfolding hex
hex-Free n = hex_from-Free (suc n) n [] tt

split-make_run_id :
    (pid counter random : ℕ)
    → split 0x2D (make_run_id pid counter random).0 ≡ hex pid ∷ hex counter ∷ hex random ∷ []
unfolding make_run_id
split-make_run_id pid counter random =
    split-join 0x2D (hex pid) (hex counter ∷ hex random ∷ [])
      (hex-Free pid, (hex-Free counter, (hex-Free random, tt)))

abbrev first : List Bytes → Bytes
first [] = []
first (x ∷ rest) = x

abbrev tail : List Bytes → List Bytes
tail [] = []
tail (x ∷ rest) = rest

hex_inj : (m n : ℕ) → hex m ≡ hex n → m ≡ n
hex_inj m n e = sym (hex-value m) ∙ ap (value_from 0) e ∙ hex-value n

-- Two calls give the same id only if the process, the value of the counter and the random number are the
-- same: no two triples are written as one text.
pub make_run_id_inj :
    (pid counter random pid2 counter2 random2 : ℕ)
    → (make_run_id pid counter random).0 ≡ (make_run_id pid2 counter2 random2).0
    → (pid ≡ pid2) × (counter ≡ counter2) × (random ≡ random2)
make_run_id_inj pid counter random pid2 counter2 random2 e =
    let parts : hex pid ∷ hex counter ∷ hex random ∷ []
        ≡ hex pid2 ∷ hex counter2 ∷ hex random2 ∷ [] =
      sym (split-make_run_id pid counter random)
      ∙ ap (split 0x2D) e
      ∙ split-make_run_id pid2 counter2 random2 in
    (
      hex_inj pid pid2 (ap first parts),
      hex_inj counter counter2 (ap (λ l. first (tail l)) parts),
      hex_inj random random2 (ap (λ l. first (tail (tail l))) parts),
    )
