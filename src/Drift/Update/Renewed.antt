-- ===== src/Drift/Update/Renewed.antt =====
-- internal/upstream/drift/drift.go: the lines that `Update` leaves, with a Resolver that asks the
-- go tool each time.
use mathlib.Core.List.{append_assoc}
use mathlib.Core.Path.{subst}
use pulumi_engine.Prelude.{
  ℕ, suc, ◌+◌, String, Bool, ◌||◌, List, [], ◌∷◌, ◌++◌, Option, none, some, length, length-append,
  ◌≡◌, refl, sym, ap, ◌∙◌, arith, Option-cases, inl, inr,
}
use pulumi_engine.Errors.Fallible.{Fallible, ok, err}
use pulumi_engine.Drift.{Source}
use pulumi_engine.Drift.Header.{source_line, header_line}
use pulumi_engine.Drift.Header.Words.{HasWords, source_line-HasWords}
use pulumi_engine.Drift.Parse.Regions.{sources_from, sources_from-none, sources_from-some}
use pulumi_engine.Drift.Resolve.{
  GoModule, Tool, Outcome, done, failed, panics, hangs, Cache, Go, bind_outcome, ◌>>=◌,
  from_fallible, file_sha256,
}
use pulumi_engine.Drift.Resolve.Cached.{plain}
use pulumi_engine.Drift.Check.Agrees.{uncached}
use pulumi_engine.Drift.Update.{set_line, repinned, or_panic, update_line, update_lines}
use pulumi_engine.Drift.Update.Lines.{set_line-append}

outcome_elim {ℓ} :
    {A B : Type 0} {P : Type ℓ} (f : A → Go B) (o : Outcome A) (cache : Cache) {b : B}
    → (bind_outcome f o cache).0 ≡ done b
    → ((a : A) → o ≡ done a → (f a cache).0 ≡ done b → P)
    → P
outcome_elim f (done a) cache h k = k a refl h
outcome_elim f (failed e) cache h k = absurd (cc h)
outcome_elim f panics cache h k = absurd (cc h)
outcome_elim f hangs cache h k = absurd (cc h)

-- Inversion of a chain that returned a value.
pub go_elim {ℓ} :
    {A B : Type 0} {P : Type ℓ} (m : Go A) (f : A → Go B) (cache : Cache) {b : B}
    → ((m >>= f) cache).0 ≡ done b
    → ((a : A) → (m cache).0 ≡ done a → (f a (m cache).1).0 ≡ done b → P)
    → P
go_elim m f cache h k = outcome_elim f (m cache).0 (m cache).1 h k

from_fallible-eq-done :
    {A : Type 0} (m : Fallible A) (cache : Cache) (a : A)
    → (from_fallible m cache).0 ≡ done a
    → m ≡ ok a
from_fallible-eq-done (ok b) cache a h = cc h
from_fallible-eq-done (err e) cache a h = absurd (cc h)

or_panic-eq-done :
    {A : Type 0} (o : Option A) (a b : A) (cache : Cache)
    → o ≡ some a
    → (or_panic o cache).0 ≡ done b
    → a ≡ b
or_panic-eq-done none a b cache e h = absurd (cc e)
or_panic-eq-done (some c) a b cache e h = cc (e, h)

module _ (tool : Tool) where
  -- the module and the sum that are pinned for a source, and the source with them
  pub record IsPinned (s t : Source) : Type 0 where
    pub pinned : GoModule
    pub sum : String
    pub found : plain tool 2 s.module_path "" ≡ done pinned
    pub summed : file_sha256 tool (tool.join pinned.dir s.path) ≡ ok sum
    pub is : repinned tool s pinned sum ≡ t

  -- From these lines, the first with this number, come those lines, in which the header lines
  -- declare those sources.
  pub data Renewed : ℕ → List String → List String → List Source → Type 0 where
    no_lines : {n : ℕ} → Renewed n [] [] []
    kept :
        {n : ℕ} {l : String} {ls ks : List String} {ts : List Source}
        → source_line n l ≡ none
        → Renewed (n + 1) ls ks ts
        → Renewed n (l ∷ ls) (l ∷ ks) ts
    renewed :
        {n : ℕ} {l : String} {ls ks : List String} {ts : List Source} {s t : Source}
        → source_line n l ≡ some s
        → IsPinned s t
        → Renewed (n + 1) ls ks ts
        → Renewed n (l ∷ ls) (header_line t ∷ ks) (t ∷ ts)

  -- a turn of the loop, at a line of the file
  update_line-IsPinned :
      (s : Source) (before : List String) (l : String) (after : List String) (cache : Cache)
      (r : Bool × List String)
      → s.line ≡ suc (length before)
      → (update_line tool (uncached tool) s (before ++ l ∷ after) cache).0 ≡ done r
      → (t : Source) × IsPinned s t × (r.1 ≡ before ++ header_line t ∷ after)
  unfolding update_line
  update_line-IsPinned s before l after cache r at h =
      go_elim (uncached tool s.module_path "") _ cache h λ pinned found h1.
        go_elim (from_fallible (file_sha256 tool (tool.join pinned.dir s.path))) _ cache h1
          λ sum summed h2. (
            repinned tool s pinned sum,
            record {
              pinned = pinned;
              sum = sum;
              found = found;
              summed = from_fallible-eq-done _ cache sum summed;
              is = refl;
            },
            sym (
                ap (λ x. x.1)
                  (or_panic-eq-done _ _ r _
                    (ap
                        (λ k.
                          set_line k (header_line (repinned tool s pinned sum))
                            (before ++ l ∷ after))
                        at
                      ∙ set_line-append before l (header_line (repinned tool s pinned sum)) after)
                    h2)),
          )

  -- The loop of `Update` over the sources of these lines, behind others.
  pub update_lines-Renewed :
      (n : ℕ) (before ls : List String) (changed : Bool) (cache : Cache) (r : Bool × List String)
      → n ≡ suc (length before)
      → (update_lines tool (uncached tool) (sources_from n ls) (before ++ ls) changed cache).0
        ≡ done r
      → (ks : List String) × (ts : List Source) × Renewed n ls ks ts × (r.1 ≡ before ++ ks)
  unfolding update_lines sources_from
  update_lines-Renewed n before [] changed cache r at h = ([], [], no_lines, cc h)
  update_lines-Renewed n before (l ∷ ls) changed cache r at h =
      elim (Option-cases (source_line n l)) [
        | inl e ↦
            let shifted : before ++ l ∷ ls ≡ (before ++ l ∷ []) ++ ls =
              sym (append_assoc before (l ∷ []) ls) in
            let (ks, ts, rest, is) =
              update_lines-Renewed (n + 1) (before ++ l ∷ []) ls changed cache r
                (omega (arith, length-append before (l ∷ [])))
                (rw (sources_from-none n l ls e, shifted) at h) in
            (l ∷ ks, ts, kept e rest, is ∙ append_assoc before (l ∷ []) ks)
        | inr (s, e) ↦
            go_elim (update_line tool (uncached tool) s (before ++ l ∷ ls))
              (λ turn.
                update_lines tool (uncached tool) (sources_from (n + 1) ls) turn.1
                  (changed || turn.0))
              cache (rw (sources_from-some n l ls s e) at h)
              λ turn made later.
                let (t, pin, is) =
                  update_line-IsPinned s before l ls cache turn
                    (HasWords.at (source_line-HasWords n l s e) ∙ at) made in
                let shifted = is ∙ sym (append_assoc before (header_line t ∷ []) ls) in
                let (ks, ts, rest, all) =
                  update_lines-Renewed (n + 1) (before ++ header_line t ∷ []) ls (changed || turn.0)
                    _ r (omega (arith, length-append before (header_line t ∷ [])))
                    (subst
                      (λ lines.
                        (update_lines tool (uncached tool) (sources_from (n + 1) ls) lines
                          (changed || turn.0)
                          (update_line tool (uncached tool) s (before ++ l ∷ ls) cache).1).0
                        ≡ done r)
                      shifted later) in
                (
                  header_line t ∷ ks,
                  t ∷ ts,
                  renewed e pin rest,
                  all ∙ append_assoc before (header_line t ∷ []) ks,
                )
      ]
