-- ===== src/Tests/Listings.antt =====
-- engine/stack.go: a backend with two pages of stacks, and one update in a history.
use mathlib.Core.List.{Perm}
use pulumi_engine.Prelude.{String, true, false, ◌≡◌, refl, List, [], ◌∷◌, Option, none, some, arith}
use pulumi_engine.Errors.{plain_error}
use pulumi_engine.Text.{InOrder}
use pulumi_engine.Errors.Fallible.{Fallible, ok, err}
use pulumi_engine.Spec.{BackendSpec, validate}
use pulumi_engine.Text.{after_last_slash}
use pulumi_engine.History.{BackendUpdate, HistoryOptions, history}
use pulumi_engine.Listing.{
  BackendFilter, BackendSummary, Page, StackSummary, ListFilter, check_listing, listing_spec,
  list_stacks,
}
use pulumi_engine.Listing.Pages.{final, further, entries, list_stacks-Answers}
use pulumi_engine.History.Past.{history_blind}
use pulumi_engine.Tests.Specs.{files_only}
use pulumi_engine.Tests.Configs.{plain_api}

abbrev stack_named : String → BackendSummary
stack_named n = record {
  name = n;
  full_name = n;
  project = none;
  last_update = none;
  resource_count = some 3;
}

abbrev two_pages : BackendFilter → Option String → Fallible Page
two_pages f none = ok (record { summaries = stack_named "prod" ∷ []; next = some "2" })
two_pages f (some t) = ok (record { summaries = stack_named "dev" ∷ []; next = none })

abbrev files : BackendSpec
files = record { url = "file:///state"; token = ""; insecure = false }

abbrev everything : ListFilter
everything = record { project = ""; organization = ""; tag_name = ""; tag_value = "" }

abbrev found : List (List BackendSummary)
found = (stack_named "prod" ∷ []) ∷ (stack_named "dev" ∷ []) ∷ []

list_stacks-Answers_example :
    (out : List StackSummary) × (list_stacks two_pages 2 files_only (ok tt) files everything
      ≡ some (ok out))
    × Perm out (entries two_pages found)
    × InOrder (λ s. s.full_name) out
unfolding check_listing validate listing_spec after_last_slash
list_stacks-Answers_example =
    list_stacks-Answers two_pages 2 files_only (ok tt) files everything found refl
      (further none (stack_named "prod" ∷ []) "2" ((stack_named "dev" ∷ []) ∷ []) refl
        (final (some "2") (stack_named "dev" ∷ []) refl))
      (omega arith)

abbrev as_stored : String → Fallible String
as_stored t = ok t

abbrev no_key : String → Fallible String
no_key t = err (plain_error "no key")

abbrev past_update : BackendUpdate plain_api as_stored
past_update = record {
  kind = "update";
  result = "succeeded";
  message = "";
  start_time = 1;
  end_time = 2;
  version = 0;
  environment = [];
  config = ("web:password", record { text = "cipher"; secret = true; object = false }) ∷ [];
  resource_changes = [];
}

abbrev first_page : HistoryOptions
first_page = record { limit = 0; page = 0; show_secrets = false }

history_blind_example :
    history plain_api as_stored as_stored (λ l p. ok (past_update ∷ [])) "dev" first_page
    ≡ history plain_api as_stored no_key (λ l p. ok (past_update ∷ [])) "dev" first_page
history_blind_example =
    history_blind plain_api as_stored as_stored no_key (λ l p. ok (past_update ∷ [])) "dev"
      first_page refl
