-- ===== src/Drift/Update/Bounds.antt =====
-- internal/upstream/drift/drift.go: `Update` of a unit never indexes behind the lines of its file.
use mathlib.Core.Path.{subst}
use pulumi_engine.Prelude.{
  ℕ, zero, suc, ◌+◌, ◌≤◌, ◌<◌, String, Bool, false, ◌||◌, ◌==◌, List, [], ◌∷◌, length, lookup, ◌≡◌,
  ◌≢◌, sym, Bool-cases, Option-cases, inl, inr,
}
use pulumi_engine.Errors.Fallible.{Fallible, ok, err, Fallible-cases}
use pulumi_engine.Drift.{Source, CopiedUnit}
use pulumi_engine.Drift.Header.{header_line}
use pulumi_engine.Drift.Parse.{split_lines, parse_unit}
use pulumi_engine.Drift.Parse.Form.{parse_unit-IsUnit, IsUnit}
use pulumi_engine.Drift.Resolve.{
  Tool, Outcome, done, failed, panics, hangs, Cache, Go, bind_outcome, ◌>>=◌, from_fallible,
  resolve, resolve_found, resolver, ask, cache_key, file_sha256,
}
use pulumi_engine.Drift.Update.{Updated, repinned, update_line, update_lines, update_with, update}
use pulumi_engine.Drift.Update.Lines.{InLines, sources_from-InLines, set_line_there}

-- No panic, and a value only with the property.
abbrev Ensures : {A : Type 0} → (A → Type 0) → Outcome A → Type 0
Ensures P (done a) = P a
Ensures P (failed e) = Unit
Ensures P panics = ⊥
Ensures P hangs = Unit

-- whatever the cache
abbrev Always : {A : Type 0} → (A → Type 0) → Go A → Type 0
Always P m = (cache : Cache) → Ensures P (m cache).0

Ensures-bind_outcome :
    {A B : Type 0} (P : A → Type 0) (Q : B → Type 0) (f : A → Go B) (o : Outcome A) (cache : Cache)
    → Ensures P o
    → ((a : A) → P a → Always Q (f a))
    → Ensures Q (bind_outcome f o cache).0
Ensures-bind_outcome P Q f (done a) cache h k = k a h cache
Ensures-bind_outcome P Q f (failed e) cache h k = tt
Ensures-bind_outcome P Q f panics cache h k = absurd h
Ensures-bind_outcome P Q f hangs cache h k = tt

Always-bind :
    {A B : Type 0} (P : A → Type 0) (Q : B → Type 0) (m : Go A) (f : A → Go B)
    → Always P m
    → ((a : A) → P a → Always Q (f a))
    → Always Q (m >>= f)
Always-bind P Q m f h k cache = Ensures-bind_outcome P Q f (m cache).0 (m cache).1 (h cache) k

Always-from_fallible : {A : Type 0} (m : Fallible A) → Always (λ a. Unit {0}) (from_fallible m)
Always-from_fallible (ok a) cache = tt
Always-from_fallible (err e) cache = tt

module _ (tool : Tool) where
  resolve-Always :
      (fuel : ℕ) (path version : String) → Always (λ m. Unit {0}) (resolve tool fuel path version)
  unfolding resolve resolve_found
  resolve-Always zero path version cache = tt
  resolve-Always (suc fuel) path version cache =
      elim (Option-cases (lookup (cache_key path version) cache)) [
        | inr (m, e) ↦ rw (resolve, e) tt
        | inl e ↦ elim (Fallible-cases (ask tool path version)) [
          | inr (x, a) ↦ rw (resolve, e, a) tt
          | inl (m, a) ↦ elim (Bool-cases (m.dir == "")) [
            | inr d ↦ rw (resolve, e, a, resolve_found, d) tt
            | inl d ↦ elim (Bool-cases (version == "")) [
              | inr v ↦ rw (resolve, e, a, resolve_found, d, v) tt
              | inl v ↦
                  rw (resolve, e, a, resolve_found, d, v) (resolve-Always fuel path m.version cache)
            ]
          ]
        ]
      ]

  update_line-Always :
      (s : Source) (lines : List String)
      → 1 ≤ s.line
      → s.line < 1 + length lines
      → Always (λ r. length r.1 ≡ length lines) (update_line tool (resolver tool) s lines)
  unfolding update_line
  update_line-Always s lines low high =
      Always-bind (λ m. Unit {0}) _ (resolver tool s.module_path "") _
        (resolve-Always 2 s.module_path "")
        λ pinned _.
          Always-bind (λ a. Unit {0}) _
            (from_fallible (file_sha256 tool (tool.join pinned.dir s.path))) _
            (Always-from_fallible (file_sha256 tool (tool.join pinned.dir s.path)))
            λ sum _ cache.
              let (r, e, same) =
                set_line_there s.line (header_line (repinned tool s pinned sum)) lines low high in
              rw e same

  update_lines-Always :
      (ss : List Source) (lines : List String) (changed : Bool)
      → InLines 1 (length lines) ss
      → Always (λ r. Unit {0}) (update_lines tool (resolver tool) ss lines changed)
  unfolding update_lines
  update_lines-Always [] lines changed h cache = tt
  update_lines-Always (s ∷ ss) lines changed h cache =
      Always-bind (λ r. length r.1 ≡ length lines) (λ r. Unit {0})
        (update_line tool (resolver tool) s lines) _ (update_line-Always s lines h.0.0 h.0.1)
        (λ turn same.
          update_lines-Always ss turn.1 (changed || turn.0)
            (subst (λ k. InLines 1 k ss) (sym same) h.1))
        cache

  -- `Update` of a unit that was parsed from the text that its file still has never panics, whatever
  -- the go tool answers and whatever the Resolver's cache holds: every line that it writes is one
  -- of the file.
  pub update-ne-panics :
      (text : String) (u : CopiedUnit) (cache : Cache)
      → parse_unit u.file text ≡ ok u
      → tool.read_file u.file ≡ ok text
      → (update tool u cache).0 ≢ panics
  unfolding update_with
  update-ne-panics text u cache parsed there bad =
      let form = IsUnit.sources_are (parse_unit-IsUnit u.file text u parsed).1 in
      let inside : InLines 1 (length (split_lines text)) u.sources =
        subst (InLines 1 (length (split_lines text))) (sym form)
          (sources_from-InLines 1 (split_lines text)) in
      let safe : Ensures (λ (r : Updated). Unit {0}) (update tool u cache).0 = rw there (
        Always-bind (λ r. Unit {0}) (λ (r : Updated). Unit {0})
          (update_lines tool (resolver tool) u.sources (split_lines text) false) _
          (update_lines-Always u.sources (split_lines text) false inside) (λ r _ c. tt) cache) in
      subst (Ensures (λ (r : Updated). Unit {0})) bad safe
