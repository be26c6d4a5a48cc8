-- ===== src/Drift/Update/Reparsed.antt =====
-- internal/upstream/drift/drift.go: `parseUnit` on the lines that `Update` leaves.
use mathlib.Core.List.{append_assoc, append-nil}
use mathlib.Core.Path.{subst}
use pulumi_engine.Prelude.{
  ℕ, zero, suc, ◌+◌, String, true, false, ◌==◌, List, [], ◌∷◌, ◌++◌, some, ◌≡◌, sym, ap, ◌∙◌, arith,
  Option-cases, Bool-cases, inl, inr,
}
use pulumi_engine.Errors.Fallible.{ok, bind_elim, ok_inj, Fallible-cases}
use pulumi_engine.Drift.{Source}
use pulumi_engine.Drift.Header.{source_line, text_line, path_line, header_line, is_digest}
use pulumi_engine.Drift.Header.Lines.{IsSource, no_at, no_blank, source_line-header_line}
use pulumi_engine.Drift.Header.Words.{HasWords, source_line-HasWords}
use pulumi_engine.Drift.Parse.{
  ParseState, begin_region, end_region, other_line, parse_line, parse_lines,
}
use pulumi_engine.Drift.Parse.Regions.{begin_region-eq-ok, end_region-eq-ok}
use pulumi_engine.Drift.Resolve.{GoModule, Tool, done, ask, file_sha256}
use pulumi_engine.Drift.Resolve.Cached.{plain, plain_found}
use pulumi_engine.Drift.Update.Renewed.{IsPinned, Renewed, no_lines, kept, renewed}

abbrev pub with_sources : List Source → ParseState → ParseState
with_sources ts st = record st { sources = ts }

begin_region-with_sources :
    (ts : List Source) (path : String) (n : ℕ) (of : String) (st next : ParseState)
    → begin_region path n of st ≡ ok next
    → begin_region path n of (with_sources ts st) ≡ ok (with_sources ts next)
unfolding begin_region
begin_region-with_sources ts path n of st next h =
    let (free, same) = begin_region-eq-ok path n of st next h in
    subst (λ s. begin_region path n of (with_sources ts st) ≡ ok (with_sources ts s)) same
      (ground (arith, free))

end_region-with_sources :
    (ts : List Source) (path : String) (n : ℕ) (of : String) (st next : ParseState)
    → end_region path n of st ≡ ok next
    → end_region path n of (with_sources ts st) ≡ ok (with_sources ts next)
unfolding end_region
end_region-with_sources ts path n of st next h =
    let (r, at, same) = end_region-eq-ok path n of st next h in
    subst (λ s. end_region path n of (with_sources ts st) ≡ ok (with_sources ts s)) same
      (ground (arith, at, h))

-- A line that is no source does not read the sources.
other_line-with_sources :
    (ts : List Source) (path : String) (n : ℕ) (line : String) (st next : ParseState)
    → other_line path n line st ≡ ok next
    → other_line path n line (with_sources ts st) ≡ ok (with_sources ts next)
unfolding other_line
other_line-with_sources ts path n line st next h =
    let put = λ (s : ParseState). ok (with_sources ts s) in
    elim (Option-cases (text_line "upstream-reason:" line)) [
      | inr (t, a) ↦ rw (other_line, a) (ap put (ok_inj _ next (rw (other_line, a) at h)))
      | inl a ↦ elim (Option-cases (text_line "upstream-delete-when:" line)) [
        | inr (t, b) ↦ rw (other_line, a, b) (ap put (ok_inj _ next (rw (other_line, a, b) at h)))
        | inl b ↦ elim (Option-cases (path_line "upstream-begin:" line)) [
          | inr (of, c) ↦
              rw (other_line, a, b, c)
                (begin_region-with_sources ts path n of st next (rw (other_line, a, b, c) at h))
          | inl c ↦ elim (Option-cases (path_line "upstream-end:" line)) [
            | inr (of, d) ↦
                rw (other_line, a, b, c, d)
                  (end_region-with_sources ts path n of st next (rw (other_line, a, b, c, d) at h))
            | inl d ↦
                rw (other_line, a, b, c, d)
                  (ap put (ok_inj _ next (rw (other_line, a, b, c, d) at h)))
          ]
        ]
      ]
    ]

-- What the go tool and SHA-256 answer: versions without white space and "@", and 64 digits.
pub record ToolLaws (tool : Tool) : Type 0 where
  pub versions :
      (path version : String) (m : GoModule)
      → ask tool path version ≡ ok m
      → (no_blank m.version ≡ true) × ((m.version == "") ≡ false) × (no_at m.version ≡ true)
  pub digests : (text : String) → is_digest (tool.sha256_hex text) ≡ true

module _ (tool : Tool) (laws : ToolLaws tool) where
  abbrev IsVersion : String → Type 0
  IsVersion v = (no_blank v ≡ true) × ((v == "") ≡ false) × (no_at v ≡ true)

  plain-IsVersion :
      (fuel : ℕ) (path version : String) (m : GoModule)
      → plain tool fuel path version ≡ done m
      → IsVersion m.version
  unfolding plain plain_found
  plain-IsVersion zero path version m h = absurd (cc h)
  plain-IsVersion (suc fuel) path version m h = elim (Fallible-cases (ask tool path version)) [
    | inr (e, a) ↦ absurd (cc (rw (plain, a) at h))
    | inl (k, a) ↦ elim (Bool-cases (k.dir == "")) [
      | inr d ↦
          let same : k ≡ m = cc (rw (plain, a, plain_found, d) at h) in
          subst (λ x. IsVersion x.version) same (laws.versions path version k a)
      | inl d ↦ elim (Bool-cases (version == "")) [
        | inl v ↦ plain-IsVersion fuel path k.version m (rw (plain, a, plain_found, d, v) at h)
        | inr v ↦ absurd (cc (rw (plain, a, plain_found, d, v) at h))
      ]
    ]
  ]

  file_sha256-is_digest :
      (path sum : String) → file_sha256 tool path ≡ ok sum → is_digest sum ≡ true
  unfolding file_sha256
  file_sha256-is_digest path sum h = elim (Fallible-cases (tool.read_file path)) [
    | inl (text, r) ↦
        subst (λ d. is_digest d ≡ true) (ok_inj _ sum (rw (file_sha256, r) at h))
          (laws.digests text)
    | inr (e, r) ↦ absurd (cc (rw (file_sha256, r) at h))
  ]

  pub IsPinned-IsSource :
      (n : ℕ) (s t : Source) → HasWords n s → IsPinned tool s t → IsSource t × (t.line ≡ n)
  IsPinned-IsSource n s t w p =
      let v = plain-IsVersion 2 s.module_path "" p.pinned p.found in
      subst (λ x. IsSource x × (x.line ≡ n)) p.is
        (
          record {
            module_word = w.module_word.0;
            module_there = w.module_word.1;
            version_word = v.0;
            version_there = v.1;
            version_at = v.2;
            path_word = w.path_word.0;
            path_there = w.path_word.1;
            digest = file_sha256-is_digest (tool.join p.pinned.dir s.path) p.sum p.summed;
          },
          w.at,
        )

  -- The line that `Update` writes declares the pinned source.
  pub source_line-IsPinned :
      (n : ℕ) (line : String) (s t : Source)
      → source_line n line ≡ some s
      → IsPinned tool s t
      → source_line n (header_line t) ≡ some t
  source_line-IsPinned n line s t e p =
      let (good, at) = IsPinned-IsSource n s t (source_line-HasWords n line s e) p in
      source_line-header_line t good n ∙ ap (λ k. some (record t { line = k })) (sym at)

  -- The loop over the lines that `Update` leaves collects the pinned sources, and else what it
  -- collected.
  pub parse_lines-Renewed :
      {n : ℕ} {ls ks : List String} {ts : List Source}
      → Renewed tool n ls ks ts
      → (path : String) (st after : ParseState) (us : List Source)
      → parse_lines path n ls st ≡ ok after
      → parse_lines path n ks (with_sources us st) ≡ ok (with_sources (us ++ ts) after)
  unfolding parse_lines parse_line
  parse_lines-Renewed no_lines path st after us h =
      rw (append-nil us) (ap (λ s. ok (with_sources us s)) (ok_inj st after h))
  parse_lines-Renewed (kept {n} {l} {ls} {ks} {ts} e r) path st after us h =
      bind_elim (other_line path n l st) (λ s. parse_lines path (n + 1) ls s)
        (rw (parse_line, e) at h)
        λ next made rest.
          rw (parse_line, e, other_line-with_sources us path n l st next made)
            (parse_lines-Renewed r path next after us rest)
  parse_lines-Renewed (renewed {n} {l} {ls} {ks} {ts} {s} {t} e pin r) path st after us h =
      let next = record st { sources = st.sources ++ s ∷ [] } in
      let rest = parse_lines-Renewed r path next after (us ++ t ∷ []) (rw (parse_line, e) at h) in
      rw (parse_line, source_line-IsPinned n l s t e pin)
        (rest ∙ ap (λ x. ok (with_sources x after)) (append_assoc us (t ∷ []) ts))
