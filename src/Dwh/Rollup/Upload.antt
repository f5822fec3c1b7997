-- ===== src/Dwh/Rollup/Upload.antt =====
-- The calls of the AWS SDK by `R2Uploader::upload` in the build with it, and the one without
-- (modules/data-warehouse/src/r2_uploader.cpp, modules/data-warehouse/src/rollup.cpp).
use lemuel_quant_core.Base.{Bool, List, [], ◌∷◌, if◌then◌else◌}
use lemuel_quant_core.Base.Bytes.{Bytes, lit}
use lemuel_quant_core.Dwh.Writer.{Written}
use lemuel_quant_core.Dwh.Rollup.Files.{RollupConfig, Put, upload}

-- `R2Uploader::Config`
record Config : Type 0 where
  endpoint : Bytes
  region : Bytes
  bucket : Bytes
  access_key : Bytes
  secret_key : Bytes

-- `uc` of `rollup_once`
abbrev config_of : RollupConfig → Config
config_of cfg = record {
  endpoint = cfg.r2_endpoint;
  region = lit "auto";
  bucket = cfg.r2_bucket;
  access_key = cfg.r2_access_key;
  secret_key = cfg.r2_secret_key;
}

data Call {ℓ} (D : Type ℓ) : Type ℓ where
  init_api : Call D
  -- the endpoint, the region, the access key and the secret key
  client_made : Bytes → Bytes → Bytes → Bytes → Call D
  put_object : Put D → Call D
  shutdown_api : Call D

module _ {ℓ} {D : Type ℓ} where
  -- The key returned, and the calls; the service takes the object or does not.
  abbrev upload_linked :
      RollupConfig → Bool → List (Written D) → Bytes → Bytes → Bytes × List (Call D)
  upload_linked cfg is_success written local key_hint =
      let uc = config_of cfg in
      (
        if is_success then key_hint else [],
        init_api
            ∷ client_made uc.endpoint uc.region uc.access_key uc.secret_key
            ∷ put_object (upload cfg written local key_hint)
            ∷ shutdown_api
            ∷ [],
      )

  abbrev upload_unlinked : Bytes → Bytes → Bytes × List (Call D)
  upload_unlinked local key_hint = ([], [])
