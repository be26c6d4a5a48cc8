-- ===== src/Drift/Parse/Regions.antt =====
-- internal/upstream/drift/drift.go: the sources and the regions that the loop of `parseUnit` collects.
use mathlib.Core.List.{append_assoc, append-nil}
use mathlib.Core.Path.{subst}
use pulumi_engine.Prelude.{
  ℕ, ◌+◌, ◌≤◌, ◌<◌, String, List, [], ◌∷◌, ◌++◌, Option, none, some, length, ◌≡◌, refl, sym, ap,
  ◌∙◌, arith, Option-cases, inl, inr,
}
use pulumi_engine.Errors.Fallible.{ok, bind_elim, ok_inj}
use pulumi_engine.Drift.{Source, Region}
use pulumi_engine.Drift.Header.{source_line, text_line, path_line}
use pulumi_engine.Drift.Parse.{
  ParseState, begin_region, end_region, other_line, parse_line, parse_lines,
}

-- The sources that the lines declare, the first line having this number.
unfoldable pub sources_from : ℕ → List String → List Source
sources_from n [] = []
sources_from n (line ∷ lines) =
    let rest = sources_from (n + 1) lines in
    elim (source_line n line) [ some s ↦ s ∷ rest | none ↦ rest ]

pub sources_from-none :
    (n : ℕ) (line : String) (lines : List String)
    → source_line n line ≡ none
    → sources_from n (line ∷ lines) ≡ sources_from (n + 1) lines
unfolding sources_from
sources_from-none n line lines e = rw (sources_from, e) refl

pub sources_from-some :
    (n : ℕ) (line : String) (lines : List String) (s : Source)
    → source_line n line ≡ some s
    → sources_from n (line ∷ lines) ≡ s ∷ sources_from (n + 1) lines
unfolding sources_from
sources_from-some n line lines s e = rw (sources_from, e) refl

-- Regions one behind the other, each of two lines at least, between two lines of the file.
abbrev pub Chain : ℕ → List Region → ℕ → Type 0
Chain low [] high = low < high
Chain low (r ∷ rs) high = (low < r.begin) × (r.begin < r.end) × Chain r.end rs high

Chain-wider :
    (low : ℕ) (rs : List Region) (high more : ℕ)
    → high ≤ more
    → Chain low rs high
    → Chain low rs more
Chain-wider low [] high more h c = omega arith
Chain-wider low (r ∷ rs) high more h c = (c.0, c.1, Chain-wider r.end rs high more h c.2)

Chain-append :
    (low : ℕ) (rs : List Region) (r : Region) (high : ℕ)
    → Chain low rs r.begin
    → r.begin < r.end
    → r.end < high
    → Chain low (rs ++ r ∷ []) high
Chain-append low [] r high c b e = (c, b, e)
Chain-append low (q ∷ rs) r high c b e = (c.0, c.1, Chain-append q.end rs r high c.2 b e)

-- The regions so far, before the line n.
abbrev pub Form : Option Region → List Region → ℕ → Type 0
Form none rs n = Chain 0 rs n
Form (some r) rs n = Chain 0 rs r.begin × (r.begin < n)

Form-next : (o : Option Region) (rs : List Region) (n : ℕ) → Form o rs n → Form o rs (n + 1)
Form-next none rs n f = Chain-wider 0 rs n (n + 1) (omega arith) f
Form-next (some r) rs n f = (f.0, omega arith)

pub begin_region-eq-ok :
    (path : String) (n : ℕ) (of : String) (st after : ParseState)
    → begin_region path n of st ≡ ok after
    → (st.opened ≡ none)
      × (record st { opened = some (record { path = of; begin = n; end = 0 }) } ≡ after)
unfolding begin_region
begin_region-eq-ok path n of st after h = elim (Option-cases st.opened) [
  | inl z ↦ (z, ground (arith, z, h))
  | inr (r, z) ↦ absurd (ground (arith, z, h))
]

pub end_region-eq-ok :
    (path : String) (n : ℕ) (of : String) (st after : ParseState)
    → end_region path n of st ≡ ok after
    → (r : Region) × (st.opened ≡ some r)
      × (record st { regions = st.regions ++ record r { end = n } ∷ []; opened = none } ≡ after)
unfolding end_region
end_region-eq-ok path n of st after h = elim (Option-cases st.opened) [
  | inl z ↦ absurd (ground (arith, z, h))
  | inr (r, z) ↦ (r, z, ground (arith, z, h))
]

-- What a line that is no source can do to the state.
pub other_line_cases {ℓ} :
    (P : ParseState → Type ℓ) (path : String) (n : ℕ) (line : String) (st after : ParseState)
    → ((text : String) → P (record st { reason = text }))
    → ((text : String) → P (record st { delete_when = text }))
    → ((of : String)
        → st.opened ≡ none
        → P (record st { opened = some (record { path = of; begin = n; end = 0 }) }))
    → ((r : Region)
        → st.opened ≡ some r
        → P (record st { regions = st.regions ++ record r { end = n } ∷ []; opened = none }))
    → P st
    → other_line path n line st ≡ ok after
    → P after
unfolding other_line
other_line_cases P path n line st after reasoned deletes begins ends same h =
    elim (Option-cases (text_line "upstream-reason:" line)) [
      | inr (t, a) ↦ subst P (ok_inj _ after (rw (other_line, a) at h)) (reasoned t)
      | inl a ↦ elim (Option-cases (text_line "upstream-delete-when:" line)) [
        | inr (t, b) ↦ subst P (ok_inj _ after (rw (other_line, a, b) at h)) (deletes t)
        | inl b ↦ elim (Option-cases (path_line "upstream-begin:" line)) [
          | inr (of, c) ↦
              let (free, same_state) =
                begin_region-eq-ok path n of st after (rw (other_line, a, b, c) at h) in
              subst P same_state (begins of free)
          | inl c ↦ elim (Option-cases (path_line "upstream-end:" line)) [
            | inr (of, d) ↦
                let (r, at, same_state) =
                  end_region-eq-ok path n of st after (rw (other_line, a, b, c, d) at h) in
                subst P same_state (ends r at)
            | inl d ↦ subst P (ok_inj _ after (rw (other_line, a, b, c, d) at h)) same
          ]
        ]
      ]
    ]

-- The regions stay in form, and the sources are those of the lines.
other_line-Form :
    (path : String) (n : ℕ) (line : String) (st after : ParseState)
    → other_line path n line st ≡ ok after
    → Form st.opened st.regions n
    → Form after.opened after.regions (n + 1) × (after.sources ≡ st.sources)
other_line-Form path n line st after h f =
    other_line_cases (λ s. Form s.opened s.regions (n + 1) × (s.sources ≡ st.sources)) path n line
      st after (λ t. (Form-next st.opened st.regions n f, refl))
      (λ t. (Form-next st.opened st.regions n f, refl))
      (λ of free. ((subst (λ o. Form o st.regions n) free f, omega arith), refl))
      (λ r at.
        let was = subst (λ o. Form o st.regions n) at f in
        (Chain-append 0 st.regions (record r { end = n }) (n + 1) was.0 was.1 (omega arith), refl))
      (Form-next st.opened st.regions n f, refl) h

pub parse_lines-Form :
    (path : String) (n : ℕ) (lines : List String) (st after : ParseState)
    → parse_lines path n lines st ≡ ok after
    → Form st.opened st.regions n
    → Form after.opened after.regions (n + length lines)
      × (after.sources ≡ st.sources ++ sources_from n lines)
unfolding parse_lines parse_line sources_from
parse_lines-Form path n [] st after h f =
    subst (λ s. Form s.opened s.regions (n + 0) × (s.sources ≡ st.sources ++ []))
      (ok_inj st after h)
      (subst (Form st.opened st.regions) (omega arith) f, sym (append-nil st.sources))
parse_lines-Form path n (line ∷ lines) st after h f = elim (Option-cases (source_line n line)) [
  | inr (s, e) ↦
      let next = record st { sources = st.sources ++ s ∷ [] } in
      let (form, sources) =
        parse_lines-Form path (n + 1) lines next after (rw (parse_line, e) at h)
          (Form-next st.opened st.regions n f) in
      (
        subst (Form after.opened after.regions) (omega arith) form,
        sources
            ∙ append_assoc st.sources (s ∷ []) (sources_from (n + 1) lines)
            ∙ ap (λ l. st.sources ++ l) (sym (sources_from-some n line lines s e)),
      )
  | inl e ↦
      bind_elim (other_line path n line st) (λ s. parse_lines path (n + 1) lines s)
        (rw (parse_line, e) at h)
        λ next made rest.
          let (here, same) = other_line-Form path n line st next made f in
          let (form, sources) = parse_lines-Form path (n + 1) lines next after rest here in
          (
            subst (Form after.opened after.regions) (omega arith) form,
            sources
                ∙ ap (λ l. l ++ sources_from (n + 1) lines) same
                ∙ ap (λ l. st.sources ++ l) (sym (sources_from-none n line lines e)),
          )
]
