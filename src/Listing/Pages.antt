-- ===== src/Listing/Pages.antt =====
-- engine/stack.go: what `ListStacks` returns for a backend whose pages come to an end.
use mathlib.Core.List.{Perm, append_assoc, append-nil}
use pulumi_engine.Prelude.{
  ℕ, zero, suc, ◌≤◌, String, ◌≡◌, refl, sym, ◌∙◌, ap, List, [], ◌∷◌, ◌++◌, map, Option, none, some,
  length, arith,
}
use pulumi_engine.Text.{sort_by, sort_by-perm, sort_by-InOrder, InOrder}
use pulumi_engine.Errors.Fallible.{Fallible, ok}
use pulumi_engine.Spec.{BackendSpec, SpecEnv}
use pulumi_engine.Listing.{
  BackendFilter, BackendSummary, Page, StackSummary, ListFilter, summary_entry, backend_filter,
  collect_pages, check_listing, list_stacks, sorted_listing,
}

module _ (pages : BackendFilter → Option String → Fallible Page) where
  -- From a token on, the backend answers with these pages, and the last has no token.
  pub data Answers (f : BackendFilter) : Option String → List (List BackendSummary) → Type 0 where
    final :
        (token : Option String) (ss : List BackendSummary)
        → pages f token ≡ ok (record { summaries = ss; next = none })
        → Answers f token (ss ∷ [])
    further :
        (token : Option String) (ss : List BackendSummary) (t : String)
        (more : List (List BackendSummary))
        → pages f token ≡ ok (record { summaries = ss; next = some t })
        → Answers f (some t) more
        → Answers f token (ss ∷ more)

  abbrev pub entries : List (List BackendSummary) → List StackSummary
  entries [] = []
  entries (ss ∷ more) = map summary_entry ss ++ entries more

  collect_pages-Answers :
      (fuel : ℕ) (f : BackendFilter) (token : Option String) (found : List (List BackendSummary))
      (out : List StackSummary)
      → Answers f token found
      → length found ≤ fuel
      → collect_pages pages fuel f token out ≡ some (ok (out ++ entries found))
  unfolding collect_pages
  collect_pages-Answers zero f token _ out (final _ ss h) room = absurd (omega arith)
  collect_pages-Answers (suc fuel) f token _ out (final _ ss h) room =
      rw (collect_pages, h)
        (ap (λ xs. some (ok (out ++ xs))) (sym (append-nil (map summary_entry ss))))
  collect_pages-Answers zero f token _ out (further _ ss t more h rest) room = absurd (omega arith)
  collect_pages-Answers (suc fuel) f token _ out (further _ ss t more h rest) room =
      rw (collect_pages, h)
        (collect_pages-Answers fuel f (some t) more (out ++ map summary_entry ss) rest (omega arith)
          ∙ ap (λ xs. some (ok xs)) (append_assoc out (map summary_entry ss) (entries more)))

  -- When the spec and the filter are accepted, the backend opens, and its pages come to an end,
  -- `ListStacks` returns a permutation of the entries of all pages, none lost and none twice, in
  -- the order of their full names; fuel for each page is enough.
  pub list_stacks-Answers :
      (fuel : ℕ) (world : SpecEnv) (connected : Fallible (Unit {0})) (spec : BackendSpec)
      (filter : ListFilter) (found : List (List BackendSummary))
      → check_listing pages world connected spec filter ≡ ok tt
      → Answers (backend_filter filter) none found
      → length found ≤ fuel
      → (out : List StackSummary) × (list_stacks pages fuel world connected spec filter
          ≡ some (ok out))
        × Perm out (entries found)
        × InOrder (λ s. s.full_name) out
  unfolding list_stacks sorted_listing
  list_stacks-Answers fuel world connected spec filter found checked answers room = (
    sort_by (λ s. s.full_name) (entries found),
    rw
        (
          list_stacks,
          checked,
          collect_pages-Answers fuel (backend_filter filter) none found [] answers room,
        )
        refl,
    sort_by-perm (λ s. s.full_name) (entries found),
    sort_by-InOrder (λ s. s.full_name) (entries found),
  )
