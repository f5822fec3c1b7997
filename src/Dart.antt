-- ===== src/Dart.antt =====
-- dart-crawler: disclosures, their in-memory store and the polling loop (modules/dart-crawler).
pub mod Store
pub mod Poll
pub mod List
pub mod Postgres
pub mod Main
use lemuel_quant_core.Base.{ℕ}
use lemuel_quant_core.Base.Bytes.{Bytes}

pub record Disclosure : Type 0 where
  pub corp_code : Bytes
  pub corp_name : Bytes
  pub stock_code : Bytes
  pub corp_cls : Bytes
  pub report_nm : Bytes
  pub rcept_no : Bytes
  pub flr_nm : Bytes
  pub rcept_dt : Bytes
  pub rm : Bytes

pub record ListQuery : Type 0 where
  pub corp_code : Bytes
  pub bgn_de : Bytes
  pub end_de : Bytes
  pub pblntf_ty : Bytes
  pub page_no : ℕ
  pub page_count : ℕ
