-- ===== src/Dwh/Settings.antt =====
-- The settings of the warehouse (modules/data-warehouse/src/main.cpp). The environment and `std::stoi`, which
-- is `none` where it throws, are arguments; an interval is in seconds.
use lemuel_quant_core.Base.{Option, none, some, ◌>>=◌, List, [], ◌∷◌}
use lemuel_quant_core.Base.Bytes.{Bytes, lit}
use lemuel_quant_core.Base.Int.{ℤ}
use lemuel_quant_core.Dwh.Rollup.Files.{RollupConfig}

unfoldable env_or : (Bytes → Option Bytes) → Bytes → Bytes → Bytes
env_or env k d = elim (env k) [ none ↦ d | some v ↦ v ]

-- What `main` sets: the rollup with its secret key, and the subscriber.
pub record Settings : Type 0 where
  pub config : RollupConfig
  pub interval : ℤ
  pub retention : ℤ
  pub redis_host : Bytes
  pub redis_port : ℤ
  pub patterns : List Bytes

-- `none` is the exception of `std::stoi`, which ends the program.
unfoldable settings_of : (Bytes → Option ℤ) → (Bytes → Option Bytes) → Option Settings
unfolding env_or
settings_of stoi env = do
  interval ← stoi (env_or env (lit "LQC_DWH_INTERVAL_SEC") (lit "300"))
  retention ← stoi (env_or env (lit "LQC_DWH_RETENTION_SEC") (lit "21600"))
  redis_port ← stoi (env_or env (lit "LQC_REDIS_PORT") (lit "6379"))
  some record {
    config = record {
      out_dir = env_or env (lit "LQC_DWH_OUT") (lit "/opt/lqc/var/dwh");
      r2_endpoint = env_or env (lit "R2_ENDPOINT") [];
      r2_bucket = env_or env (lit "R2_BUCKET") (lit "lemuel-quant");
      r2_access_key = env_or env (lit "R2_ACCESS_KEY") [];
      r2_secret_key = env_or env (lit "R2_SECRET_KEY") [];
      key_prefix = lit "snapshots";
    };
    interval = interval;
    retention = retention;
    redis_host = env_or env (lit "LQC_REDIS_HOST") (lit "127.0.0.1");
    redis_port = redis_port;
    patterns = lit "trade.binance.*" ∷ lit "trade.kis.*" ∷ lit "news.score.*" ∷ [];
  }
