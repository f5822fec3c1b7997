-- ===== src/Dwh/Rollup/Files.antt =====
-- `rollup_once` as a whole, with the file that it writes and its upload
-- (modules/data-warehouse/src/rollup.cpp, modules/data-warehouse/src/r2_uploader.cpp). The
-- name of a point in time and the joining of paths are arguments; what is sent is the result, whatever the
-- storage service answers.
use lemuel_quant_core.Base.{
  ℕ, Bool, not, ◌&&◌, Option, none, some, List, [], ◌∷◌, ◌++◌, if◌then◌else◌,
}
use lemuel_quant_core.Base.Bytes.{Bytes, lit, bytes_eq, is_empty}
use lemuel_quant_core.Dwh.{Row}
use lemuel_quant_core.Dwh.Rollup.{rollup_once}
use lemuel_quant_core.Dwh.Writer.{Written, csv, parquet, truncated, Table, Arrow, write}

pub record RollupConfig : Type 0 where
  pub out_dir : Bytes
  pub r2_endpoint : Bytes
  pub r2_bucket : Bytes
  pub r2_access_key : Bytes
  pub r2_secret_key : Bytes
  pub key_prefix : Bytes

-- What a file holds: nothing, a text, or a table.
pub data Content {ℓ} (D : Type ℓ) : Type ℓ where
  blank : Content D
  text : Bytes → Content D
  table : Table D → Content D

module _ {ℓ} {D : Type ℓ} where
  -- What is read from a path behind the writes; nothing if there is no such file.
  abbrev read_file : Bytes → List (Written D) → Content D
  read_file path [] = blank
  read_file path (csv p t ∷ written) = if bytes_eq p path then text t else read_file path written
  read_file path (parquet p t ∷ written) =
      if bytes_eq p path then table t else read_file path written
  read_file path (truncated p ∷ written) = if bytes_eq p path then blank else read_file path written

-- One `PutObject`: the bucket, the key and the body.
pub record Put {ℓ} (D : Type ℓ) : Type ℓ where
  pub bucket : Bytes
  pub key : Bytes
  pub body : Content D

-- The files written, the object sent and the path returned.
pub record Rolled {ℓ} (D : Type ℓ) : Type ℓ where
  pub written : List (Written D)
  pub sent : Option (Put D)
  pub path : Bytes

-- `fname`
abbrev file_name : (ℕ → Bytes) → ℕ → Bytes
file_name ymd_hms until_ns = lit "rollup-" ++ (ymd_hms until_ns ++ lit ".parquet")

-- `path` and `key`
abbrev file_path : (Bytes → Bytes → Bytes) → (ℕ → Bytes) → RollupConfig → ℕ → Bytes
file_path join_path ymd_hms cfg until_ns = join_path cfg.out_dir (file_name ymd_hms until_ns)

abbrev object_key : (ℕ → Bytes) → RollupConfig → ℕ → Bytes
object_key ymd_hms cfg until_ns = cfg.key_prefix ++ (lit "/" ++ file_name ymd_hms until_ns)

module _ {ℓ} {D : Type ℓ} where
  -- The request of `R2Uploader::upload`.
  abbrev pub upload : RollupConfig → List (Written D) → Bytes → Bytes → Put D
  upload cfg written local key_hint = record {
    bucket = cfg.r2_bucket;
    key = key_hint;
    body = read_file local written;
  }

module _ {ℓ} {D : Type ℓ} (sort : List (Row D) → List (Row D))
    (write_rows : Bytes → List (Row D) → List (Written D)) (ymd_hms : ℕ → Bytes)
    (join_path : Bytes → Bytes → Bytes) where
  -- `all` is not empty.
  unfoldable roll_file : RollupConfig → ℕ → List (Row D) → Rolled D
  roll_file cfg until_ns all =
      let path = file_path join_path ymd_hms cfg until_ns in
      let written = write_rows path all in
      record {
        written = written;
        sent =
            if not (is_empty cfg.r2_access_key) && not (is_empty cfg.r2_endpoint)
            then some (upload cfg written path (object_key ymd_hms cfg until_ns))
            else none;
        path = path;
      }

  abbrev roll_rows : RollupConfig → ℕ → List (Row D) → Rolled D
  unfolding roll_file
  roll_rows cfg until_ns [] = record { written = []; sent = none; path = [] }
  roll_rows cfg until_ns (r ∷ rows) = roll_file cfg until_ns (r ∷ rows)

  unfoldable pub roll : RollupConfig → List (Bytes × List (Row D)) → ℕ → ℕ → Rolled D
  unfolding rollup_once roll_rows
  roll cfg m since_ns until_ns = roll_rows cfg until_ns (rollup_once sort m since_ns until_ns)

module _ {ℓ} {D : Type ℓ} (arrow : Arrow D) (is_opened : Bytes → Bool)
    (is_written : Bytes → Table D → Bool) (put_text : Bytes → Bytes → Option Bytes)
    (show : D → Bytes) (replace_extension : Bytes → Bytes) (sort : List (Row D) → List (Row D))
    (ymd_hms : ℕ → Bytes) (join_path : Bytes → Bytes → Bytes) where
  abbrev writer : Bytes → List (Row D) → List (Written D)
  writer = write arrow is_opened is_written put_text show replace_extension
