-- ===== src/Drift/Update/Lines.antt =====
-- internal/upstream/drift/drift.go: the lines that `Update` writes are lines of the file.
use pulumi_engine.Prelude.{
  ℕ, zero, suc, ◌+◌, ◌≤◌, ◌<◌, String, Bool, not, ◌==◌, List, [], ◌∷◌, ◌++◌, some, All, length, ◌≡◌,
  refl, ap, arith, Option-cases, inl, inr, eq_iff,
}
use pulumi_engine.Drift.{Source}
use pulumi_engine.Drift.Header.Words.{HasWords, source_line-HasWords}
use pulumi_engine.Drift.Header.{source_line}
use pulumi_engine.Drift.Parse.Regions.{sources_from}
use pulumi_engine.Drift.Update.{put_line, set_line}

-- A write at a line of the file replaces that line and no other.
pub set_line-append :
    (before : List String) (l line : String) (after : List String)
    → (set_line (suc (length before)) line (before ++ l ∷ after))
      ≡ some (not (l == line), before ++ line ∷ after)
unfolding set_line put_line
set_line-append [] l line after = ground (arith, eq_iff l line)
set_line-append (b ∷ before) l line after = rw (put_line, set_line-append before l line after) refl

-- The numbers of the sources are numbers of the lines.
abbrev pub InLines : ℕ → ℕ → List Source → Type 0
InLines n k = All (λ s. (n ≤ s.line) × (s.line < n + k))

InLines-wider : (n k : ℕ) (ss : List Source) → InLines (n + 1) k ss → InLines n (suc k) ss
InLines-wider n k [] h = tt
InLines-wider n k (s ∷ ss) h = ((omega arith, omega arith), InLines-wider n k ss h.1)

pub sources_from-InLines :
    (n : ℕ) (lines : List String) → InLines n (length lines) (sources_from n lines)
unfolding sources_from
sources_from-InLines n [] = tt
sources_from-InLines n (line ∷ lines) =
    let rest =
      InLines-wider n (length lines) (sources_from (n + 1) lines)
        (sources_from-InLines (n + 1) lines) in
    elim (Option-cases (source_line n line)) [
      | inl e ↦ rw (sources_from, e) rest
      | inr (s, e) ↦
          let at = HasWords.at (source_line-HasWords n line s e) in
          rw (sources_from, e) ((omega arith, omega arith), rest)
    ]

-- A write inside the file succeeds and keeps the number of lines.
put_line_there :
    (i : ℕ) (line : String) (lines : List String)
    → i < length lines
    → (r : Bool × List String) × (put_line i line lines ≡ some r) × (length r.1 ≡ length lines)
unfolding put_line
put_line_there i line [] h = absurd (omega arith)
put_line_there zero line (l ∷ ls) h = (_, refl, refl)
put_line_there (suc i) line (l ∷ ls) h =
    let (r, e, n) = put_line_there i line ls (omega arith) in
    ((r.0, l ∷ r.1), rw (put_line, e) refl, ap suc n)

pub set_line_there :
    (n : ℕ) (line : String) (lines : List String)
    → 1 ≤ n
    → n < 1 + length lines
    → (r : Bool × List String) × (set_line n line lines ≡ some r) × (length r.1 ≡ length lines)
unfolding set_line
set_line_there zero line lines h k = absurd (omega arith)
set_line_there (suc i) line lines h k = put_line_there i line lines (omega arith)
