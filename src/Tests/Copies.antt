-- ===== src/Tests/Copies.antt =====
-- internal/upstream/drift/drift.go: a copied file, found, checked and updated.
use mathlib.Core.List.{Perm}
use pulumi_engine.Prelude.{
  String, lookup, true, false, Bool-cases, inl, inr, ◌==◌, ◌≡◌, ◌≢◌, refl, List, [], ◌∷◌, none,
  if◌then◌else◌,
}
use pulumi_engine.Text.{concat, join, InOrder, sort_by}
use pulumi_engine.Errors.Fallible.{Fallible, ok, ok_inj}
use pulumi_engine.Drift.{Source, CopiedUnit}
use pulumi_engine.Drift.Scan.{DirEntry, parse_file, scan_entries, scan}
use pulumi_engine.Drift.Scan.Units.{Scanned, scan-Scanned}
use pulumi_engine.Drift.Parse.{split_lines, parse_unit}
use pulumi_engine.Drift.Parse.Form.{IsUnit, parse_unit-IsUnit}
use pulumi_engine.Drift.Resolve.{GoModule, Tool, panics, done, ask, cache_key, resolve, file_sha256}
use pulumi_engine.Drift.Resolve.Cached.{ListsVersions}
use pulumi_engine.Drift.Header.{
  source_line, is_blank, text_line, path_line, header_line, all_hex, text_length,
}
use pulumi_engine.Drift.Check.{check, check_with}
use pulumi_engine.Drift.Check.Agrees.{uncached, check-eq-uncached}
use pulumi_engine.Drift.Update.{
  rewritten, update, update_with, update_lines, update_line, write_back, set_line,
}
use pulumi_engine.Drift.Update.Reparsed.{ToolLaws}
use pulumi_engine.Drift.Update.Settled.{parse_unit-update}
use pulumi_engine.Drift.Header.Lines.{no_blank, no_at}
use pulumi_engine.Drift.Update.Bounds.{update-ne-panics}

abbrev old_digest : String
old_digest = "0000000000000000000000000000000000000000000000000000000000000000"

abbrev new_digest : String
new_digest = "1111111111111111111111111111111111111111111111111111111111111111"

abbrev copied_lines : List String
copied_lines =
    concat ("// upstream: example.org/m@v1.0.0 a/b.go sha256=" ∷ old_digest ∷ "\n" ∷ [])
    ∷ "// upstream-reason: unexported\n"
    ∷ "// upstream-delete-when: exported\n"
    ∷ "// upstream-begin: a/b.go (f)\n"
    ∷ "func f() {}\n"
    ∷ "// upstream-end: a/b.go\n"
    ∷ []

abbrev copied_text : String
copied_text = concat copied_lines

abbrev copied : CopiedUnit
copied = record {
  file = "copied.go";
  sources =
      record {
        module_path = "example.org/m";
        version = "v1.0.0";
        path = "a/b.go";
        sha256 = old_digest;
        line = 1;
      }
      ∷ [];
  regions = record { path = "a/b.go"; begin = 4; end = 6 } ∷ [];
  reason = "unexported";
  delete_when = "exported";
}

copied_parses : parse_unit "copied.go" copied_text ≡ ok copied
unfolding parse_unit concat source_line is_blank text_line path_line
copied_parses = refl

parse_unit-IsUnit_example : (copied.file ≡ "copied.go") × IsUnit (split_lines copied_text) copied
parse_unit-IsUnit_example = parse_unit-IsUnit "copied.go" copied_text copied copied_parses

-- Version v2.0.0 is pinned, and has another sum.
abbrev pinned_module : GoModule
pinned_module = record { path = "example.org/m"; version = "v2.0.0"; dir = "/mod/m@v2.0.0" }

abbrev recorded_module : GoModule
recorded_module = record { path = "example.org/m"; version = "v1.0.0"; dir = "/mod/m@v1.0.0" }

abbrev go_tool : Tool
go_tool = record {
  list_module = λ m. ok pinned_module;
  download = λ k. ok recorded_module;
  read_file = λ p. ok (if p == "copied.go" then copied_text else "package b");
  write_file = λ p t. none;
  sha256_hex = λ t. new_digest;
  join = λ d p. p;
  diff = λ a b c d. "-old\n+new\n";
}

lists_versions : ListsVersions go_tool
lists_versions p m h = let e : pinned_module ≡ m = cc h in rw (← e) refl

check-eq-uncached_example :
    (check go_tool (copied ∷ copied ∷ []) []).0
    ≡ (check_with go_tool (uncached go_tool) (copied ∷ copied ∷ []) []).0
check-eq-uncached_example =
    check-eq-uncached go_tool lists_versions (copied ∷ copied ∷ []) ((refl, tt), ((refl, tt), tt))

update-ne-panics_example : (update go_tool copied []).0 ≢ panics
update-ne-panics_example = update-ne-panics go_tool copied_text copied [] copied_parses refl

abbrev updated_text : String
updated_text = concat (
    concat ("// upstream: example.org/m@v2.0.0 a/b.go sha256=" ∷ new_digest ∷ "\n" ∷ [])
    ∷ "// upstream-reason: unexported\n"
    ∷ "// upstream-delete-when: exported\n"
    ∷ "// upstream-begin: a/b.go (f)\n"
    ∷ "func f() {}\n"
    ∷ "// upstream-end: a/b.go\n"
    ∷ [])

copied_updates : (update go_tool copied []).0 ≡ done (rewritten updated_text none)
unfolding update_with update_lines update_line write_back split_lines concat cache_key join resolve
    lookup ask file_sha256 set_line header_line
copied_updates = refl

-- Versions of the tool's two answers.
tool_laws : ToolLaws go_tool
unfolding ask is_blank all_hex text_length
tool_laws = record { versions = versions; digests = λ t. refl }
  where
    versions :
        (path version : String) (m : GoModule)
        → ask go_tool path version ≡ ok m
        → (no_blank m.version ≡ true) × ((m.version == "") ≡ false) × (no_at m.version ≡ true)
    versions path version m h = elim (Bool-cases (version == "")) [
      | inl y ↦
          let e : pinned_module ≡ m = ok_inj _ m (rw (ask, y) at h) in rw (← e) (refl, refl, refl)
      | inr n ↦
          let e : recorded_module ≡ m = ok_inj _ m (rw (ask, n) at h) in rw (← e) (refl, refl, refl)
    ]

parse_unit-update_example :
    (ts : List Source) × (parse_unit "copied.go" updated_text ≡ ok (record copied { sources = ts }))
    × ((check go_tool (record copied { sources = ts } ∷ []) []).0 ≡ done [])
parse_unit-update_example =
    parse_unit-update go_tool tool_laws copied_text updated_text copied none copied_parses refl
      copied_updates

abbrev file_named : String → DirEntry
file_named name = record { name = name; is_dir = false }

abbrev upstream_dir : String → Fallible (List DirEntry)
upstream_dir d = ok (
    file_named "README.md"
    ∷ file_named "copied.go"
    ∷ file_named "copied_test.go"
    ∷ file_named "doc.go"
    ∷ record { name = "drift.go"; is_dir = true }
    ∷ [])

copied_scanned : scan upstream_dir go_tool.read_file go_tool.join "." ≡ ok (copied ∷ [])
unfolding scan scan_entries parse_file parse_unit concat source_line is_blank text_line path_line
    sort_by
copied_scanned = refl

scan-Scanned_example :
    InOrder (λ u. u.file) (copied ∷ [])
    × ((es : List DirEntry) × (found : List CopiedUnit) × (upstream_dir "." ≡ ok es)
        × Scanned upstream_dir go_tool.read_file go_tool.join "." es found
        × Perm (copied ∷ []) found)
scan-Scanned_example =
    scan-Scanned upstream_dir go_tool.read_file go_tool.join "." (copied ∷ []) copied_scanned
