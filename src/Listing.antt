-- ===== src/Listing.antt =====
-- engine/stack.go: `ListStacks`, which follows continuation tokens.
pub mod Pages
use pulumi_engine.Prelude.{
  ℕ, zero, suc, leb, String, Bool, true, false, not, ◌&&◌, ◌==◌, List, [], ◌∷◌, ◌++◌, map, Option,
  none, some, Dict, insert, if◌then◌else◌,
}
use pulumi_engine.Text.{concat, sort_by}
use pulumi_engine.Errors.{GoError, invalid, unsupported, unclassified, wrapped}
use pulumi_engine.Errors.Classify.{classify_backend_error}
use pulumi_engine.Errors.Fallible.{Fallible, ok, err, ◌>>=◌, ◌>>◌, reject_if, map_err}
use pulumi_engine.Spec.{StackSpec, BackendSpec, ConfigValue, SpecEnv, validate}
use pulumi_engine.Config.{ConfigApi}

pub record StackSummary : Type 0 where
  pub name : String
  pub full_name : String
  pub project : String
  pub last_update : Option ℕ
  pub resource_count : Option ℕ

pub record ListFilter : Type 0 where
  pub project : String
  pub organization : String
  pub tag_name : String
  pub tag_value : String

-- `backend.ListStacksFilter`: a pointer for each field
pub record BackendFilter : Type 0 where
  pub project : Option String
  pub organization : Option String
  pub tag_name : Option String
  pub tag_value : Option String

-- A summary of the backend, as far as the listing reads it.
pub record BackendSummary : Type 0 where
  pub name : String
  pub full_name : String
  pub project : Option String
  pub last_update : Option ℕ
  pub resource_count : Option ℕ

-- A page of the backend's `ListStacks`, with the token of the next one, if there is one.
pub record Page : Type 0 where
  pub summaries : List BackendSummary
  pub next : Option String

abbrev or_empty : Option String → String
or_empty none = ""
or_empty (some s) = s

unfoldable pub summary_entry : BackendSummary → StackSummary
summary_entry s = record {
  name = s.name;
  full_name = s.full_name;
  project = or_empty s.project;
  last_update = s.last_update;
  resource_count = s.resource_count;
}

abbrev not_empty : String → Option String
not_empty s = if s == "" then none else some s

unfoldable pub backend_filter : ListFilter → BackendFilter
backend_filter f = record {
  project = not_empty f.project;
  organization = not_empty f.organization;
  tag_name = not_empty f.tag_name;
  tag_value = not_empty f.tag_value;
}

-- the spec that `ListStacks` validates
unfoldable pub listing_spec : BackendSpec → StackSpec
listing_spec backend = record {
  name = "list";
  project = record { name = "list"; dir = ""; description = "" };
  backend = backend;
  secrets = record { provider = "b64"; passphrase = ""; passphrase_set = false };
  config = [];
  create = false;
  env = [];
}

module _ (pages : BackendFilter → Option String → Fallible Page) where
  -- The loop over the pages; none when the fuel runs out first.
  unfoldable pub collect_pages :
      ℕ → BackendFilter → Option String → List StackSummary → Option (Fallible (List StackSummary))
  collect_pages zero f token out = none
  collect_pages (suc fuel) f token out = elim (pages f token) [
    | err e ↦ some (err (classify_backend_error "" e))
    | ok page ↦
        let found = out ++ map summary_entry page.summaries in
        elim page.next [
          | none ↦ some (ok found)
          | some next ↦ collect_pages fuel f (some next) found
        ]
  ]

  -- `ListStacks` before the backend is asked: the spec and the filter are checked, and the backend
  -- is opened
  unfoldable pub check_listing :
      SpecEnv → Fallible (Unit {0}) → BackendSpec → ListFilter → Fallible (Unit {0})
  check_listing world connected spec filter = do
    listing ← validate world (listing_spec spec)
    reject_if (not (filter.organization == "") && world.is_diy_url spec.url) (
        unsupported (record {
          feature = "listStacks.organization";
          backend = "diy";
          message = "DIY backends have no organizations";
        }))
    if filter.project == "" then ok tt else elim (world.parse_stack_name filter.project) [
      | none ↦ ok tt
      | some m ↦ err (invalid "filter.project" m)
    ]
    connected

  sorted_listing : Fallible (List StackSummary) → Fallible (List StackSummary)
  sorted_listing found = found >>= λ out. ok (sort_by (λ s. s.full_name) out)

  -- `ListStacks`
  unfoldable pub list_stacks :
      ℕ
      → SpecEnv
      → Fallible (Unit {0})
      → BackendSpec
      → ListFilter
      → Option (Fallible (List StackSummary))
  unfolding sorted_listing
  list_stacks fuel world connected spec filter = elim (check_listing world connected spec filter) [
    | err e ↦ some (err e)
    | ok _ ↦ elim (collect_pages fuel (backend_filter filter) none []) [
      | none ↦ none
      | some found ↦ some (sorted_listing found)
    ]
  ]
