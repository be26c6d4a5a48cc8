-- ===== src/Drift/Resolve.antt =====
-- internal/upstream/drift/drift.go: the Resolver, with its cache as state, and the operations that
-- the checker builds on it. What can panic or never return says so in its outcome.
pub mod Cached
use Prim.Native.String.{◌++◌ as append}
use pulumi_engine.Prelude.{
  ℕ, zero, suc, String, Bool, ◌==◌, ◌∷◌, [], Option, none, some, Dict, lookup, insert,
  if◌then◌else◌, ◌≡◌, refl,
}
use pulumi_engine.Text.{concat}
use pulumi_engine.Errors.{GoError, plain_error}
use pulumi_engine.Errors.Fallible.{Fallible, ok, err}

-- `Module`
pub record GoModule : Type 0 where
  pub path : String
  pub version : String
  pub dir : String

-- The go tool, the files, SHA-256 in hexadecimal, and the differ.
pub record Tool : Type 0 where
  -- `go list -m -json` of a module, and `go mod download -json` of a module at a version, run and
  -- decoded
  pub list_module : String → Fallible GoModule
  pub download : String → Fallible GoModule
  pub read_file : String → Fallible String
  pub write_file : String → String → Option GoError
  pub sha256_hex : String → String
  -- `filepath.Join(dir, filepath.FromSlash(path))`
  pub join : String → String → String
  -- `unifiedDiff` of two files at two versions
  pub diff : String → String → String → String → String

pub data Outcome {ℓ} (A : Type ℓ) : Type ℓ where
  done : A → Outcome A
  failed : GoError → Outcome A
  -- an index out of range, and a recursion without end
  panics hangs : Outcome A

abbrev pub Cache : Type 0
Cache = Dict GoModule

abbrev pub Go : Type 0 → Type 0
Go A = Cache → Outcome A × Cache

abbrev pub return : {A : Type 0} → A → Go A
return a cache = (done a, cache)

abbrev pub throw : {A : Type 0} → GoError → Go A
throw e cache = (failed e, cache)

abbrev pub from_fallible : {A : Type 0} → Fallible A → Go A
from_fallible (ok a) = return a
from_fallible (err e) = throw e

abbrev pub bind_outcome : {A B : Type 0} → (A → Go B) → Outcome A → Go B
bind_outcome f (done a) cache = f a cache
bind_outcome f (failed e) cache = (failed e, cache)
bind_outcome f panics cache = (panics, cache)
bind_outcome f hangs cache = (hangs, cache)

infixl 5 ◌>>=◌
abbrev pub ◌>>=◌ : {A B : Type 0} → Go A → (A → Go B) → Go B
◌>>=◌ m f cache = bind_outcome f (m cache).0 (m cache).1

abbrev pub caught : {A : Type 0} → Outcome A → Outcome (Fallible A)
caught (done a) = done (ok a)
caught (failed e) = done (err e)
caught panics = panics
caught hangs = hangs

-- `if old, err := ...; err == nil { ... } else { ... }`
abbrev pub attempt : {A : Type 0} → Go A → Go (Fallible A)
attempt m cache = (caught (m cache).0, (m cache).1)

-- `module + "@" + version`
unfoldable pub cache_key : String → String → String
cache_key path version = append path (append "@" version)

module _ (tool : Tool) where
  open tool use {list_module, download, read_file, sha256_hex}

  -- the run of the go tool, without a version or at one
  unfoldable pub ask : String → String → Fallible GoModule
  ask path version = if version == "" then list_module path else download (cache_key path version)

  -- `resolve`, on fuel; `continued` is the call that it makes of itself, at the version that was
  -- found
  unfoldable pub resolve_found :
      (String → String → Go GoModule) → String → String → GoModule → Go GoModule
  resolve_found continued path version m cache =
      if m.dir == ""
      then if version == "" then continued path m.version cache else (
        failed (plain_error (concat (cache_key path version ∷ ": module directory unknown" ∷ []))),
        cache,
      )
      else (done m, insert (cache_key path version) m cache)

  unfoldable pub resolve : ℕ → String → String → Go GoModule
  unfolding resolve_found
  resolve zero path version cache = (hangs, cache)
  resolve (suc fuel) path version cache = elim (lookup (cache_key path version) cache) [
    | some m ↦ (done m, cache)
    | none ↦ elim (ask path version) [
      | err e ↦ (failed e, cache)
      | ok m ↦ resolve_found (resolve fuel) path version m cache
    ]
  ]

  -- `Pinned` and `At`; two calls are enough where a module that is listed without a directory has
  -- a version
  abbrev pub resolver : String → String → Go GoModule
  resolver = resolve 2

  -- `fileSHA256`
  unfoldable pub file_sha256 : String → Fallible String
  file_sha256 path = elim (read_file path) [ ok text ↦ ok (sha256_hex text) | err e ↦ err e ]
