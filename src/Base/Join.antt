-- ===== src/Base/Join.antt =====
-- Texts that are put together with a delimiter in front of each part or behind it.
use Prim.Native.Nat.{ℕ}
use mathlib.Core.List.{List, [], ◌∷◌, ◌++◌, append_assoc, append-nil}
use mathlib.Core.Logic.{◌≢◌}
use mathlib.Core.Path.{◌≡◌, refl, sym, ap, ◌∙◌}
use lemuel_quant_core.Base.Bytes.{Bytes}
use lemuel_quant_core.Base.Lists.{All, All-append}
use lemuel_quant_core.Base.Split.{split, join, Free, split-join}

-- A text for each element, the delimiter in front of it.
abbrev pub led : ℕ → List Bytes → Bytes
led d [] = []
led d (x ∷ xs) = d ∷ (x ++ led d xs)

-- A text for each element, the delimiter behind it.
abbrev pub ended : ℕ → List Bytes → Bytes
ended d [] = []
ended d (x ∷ xs) = x ++ (d ∷ ended d xs)

pub join-led : (d : ℕ) (x : Bytes) (xs : List Bytes) → join d (x ∷ xs) ≡ x ++ led d xs
join-led d x [] = sym (append-nil x)
join-led d x (y ∷ ys) = ap (λ t. x ++ (d ∷ t)) (join-led d y ys)

pub led-append : (d : ℕ) (xs ys : List Bytes) → led d (xs ++ ys) ≡ led d xs ++ led d ys
led-append d [] ys = refl
led-append d (x ∷ xs) ys =
    ap (λ t. d ∷ (x ++ t)) (led-append d xs ys) ∙ ap (◌∷◌ d) (sym (append_assoc x _ _))

join-ended : (d : ℕ) (xs : List Bytes) → join d (xs ++ [] ∷ []) ≡ ended d xs
join-ended d [] = refl
join-ended d (x ∷ []) = refl
join-ended d (x ∷ y ∷ ys) = ap (λ t. x ++ (d ∷ t)) (join-ended d (y ∷ ys))

pub join-Free : (c d : ℕ) (xs : List Bytes) → d ≢ c → All (Free c) xs → Free c (join d xs)
join-Free c d [] n h = tt
join-Free c d (x ∷ []) n (h, _) = h
join-Free c d (x ∷ y ∷ ys) n (h, hs) =
    All-append (λ b. b ≢ c) x (d ∷ join d (y ∷ ys)) h (n, join-Free c d (y ∷ ys) n hs)

pub All-imp {ℓ κ μ} :
    {A : Type ℓ} {P : A → Type κ} {Q : A → Type μ}
    → ((x : A) → P x → Q x)
    → (xs : List A) → All P xs
    → All Q xs
All-imp f [] h = tt
All-imp f (x ∷ xs) (h, hs) = (f x h, All-imp f xs hs)

pub split-ended : (d : ℕ) (xs : List Bytes) → All (Free d) xs → split d (ended d xs) ≡ xs ++ [] ∷ []
split-ended d [] h = split-join d [] [] (tt, tt)
split-ended d (x ∷ xs) (h, hs) =
    ap (split d) (sym (join-ended d (x ∷ xs)))
    ∙ split-join d x (xs ++ [] ∷ []) (h, All-append (Free d) xs ([] ∷ []) hs (tt, tt))
