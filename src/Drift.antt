-- ===== src/Drift.antt =====
-- internal/upstream/drift/drift.go: the checker of the code that is copied from Pulumi. A file is
-- its text; `Header` has the patterns of its lines, `Parse` is `parseUnit`, `Resolve` the Resolver,
-- `Check` and `Update` the two operations, and `Scan` the walk over a directory.
pub mod Header
pub mod Parse
pub mod Scan
pub mod Resolve
pub mod Check
pub mod Update
use pulumi_engine.Prelude.{ℕ, String, List}

pub record Source : Type 0 where
  pub module_path : String
  pub version : String
  pub path : String
  pub sha256 : String
  pub line : ℕ

pub record Region : Type 0 where
  pub path : String
  pub begin : ℕ
  -- 0 while the region is open
  pub end : ℕ

-- `Unit`
pub record CopiedUnit : Type 0 where
  pub file : String
  pub sources : List Source
  pub regions : List Region
  pub reason : String
  pub delete_when : String
