-- ===== src/Dwh/Rollup.antt =====
-- `rollup_once` (modules/data-warehouse/src/rollup.cpp): the rows that are handed to the writer. The
-- writer, the upload and the name of the file are in its child modules.
pub mod Windows
pub mod Files
pub mod Upload
use lemuel_quant_core.Base.{ℕ, List, [], ◌∷◌, ◌++◌}
use lemuel_quant_core.Base.Bytes.{Bytes, lit}
use lemuel_quant_core.Dwh.{Row}
use lemuel_quant_core.Dwh.Store.{query}

abbrev pub channels : List Bytes
channels = lit "trade" ∷ lit "book" ∷ lit "news" ∷ lit "dart" ∷ []

module _ {ℓ} {D : Type ℓ} (sort : List (Row D) → List (Row D)) where
  abbrev pub collect : List (Bytes × List (Row D)) → List Bytes → ℕ → ℕ → List (Row D)
  collect m [] since_ns until_ns = []
  collect m (ch ∷ chs) since_ns until_ns =
      query sort m ch since_ns until_ns ++ collect m chs since_ns until_ns

  -- The rows of one rollup; no file is written if there is none.
  unfoldable pub rollup_once : List (Bytes × List (Row D)) → ℕ → ℕ → List (Row D)
  rollup_once m since_ns until_ns = collect m channels since_ns until_ns
