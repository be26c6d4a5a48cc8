-- ===== src/Credentials.antt =====
-- engine/stack.go: `withSpecCredentials`, which shows a token to the constructor of an HTTP backend
-- through Pulumi's credentials file, and `openBackend`, which constructs the backend of a spec.
-- The lock that serialises the hand-off makes one call of it run at a time.
use pulumi_engine.Prelude.{
  String, Bool, false, ◌==◌, ◌≡◌, refl, Option, none, some, Dict, lookup, insert, erase,
  lookup-insert, lookup-erase, if◌then◌else◌, Option-cases, inl, inr, [], ◌∷◌, is_some, true, ap,
}
use pulumi_engine.Text.{concat}
use pulumi_engine.Errors.{GoError, wrapped, joined, unclassified}
use pulumi_engine.Errors.Fallible.{Fallible, ok, err, map_err}
use pulumi_engine.Spec.{BackendSpec}

-- The contents of the files, by path.
abbrev pub Files : Type 0
Files = Dict String

-- The environment, the file system's refusals, and Pulumi's packages.
pub record CredentialsApi : Type 1 where
  -- `os.Getenv` of the credentials path, `workspace.GetPulumiHomeDir` and `os.TempDir`
  pub credentials_dir : String
  pub home_dir : Fallible String
  pub temp_dir : String
  -- `filepath.Join`
  pub join : String → String → String
  -- why a file that is there cannot be read, and why a removal or a write fails
  pub read_error : String → Option GoError
  pub remove_error : String → Option GoError
  -- what `os.Remove` returns of a file that is not there
  pub not_there : String → GoError
  pub write_error : String → Option GoError
  -- `httpstate.ValueOrDefaultURL`
  pub default_url : String → String
  -- `workspace.StoreAccount(url, account, false)`
  pub store_account : String → String → Bool → Files → Option GoError × Files
  pub Backend : Type 0
  -- `diy.New` and `httpstate.New`
  pub diy_new : String → Fallible Backend
  pub http_new : String → Bool → Files → Fallible Backend × Files

-- `errors.Join(openErr, err)`, whose first may be nil
abbrev join_errors {ℓ} : {A : Type ℓ} → Fallible A → GoError → GoError
join_errors (ok _) e = e
join_errors (err d) e = joined d e

module _ (api : CredentialsApi) where
  unfoldable pub credentials_file_path : String
  credentials_file_path =
      if api.credentials_dir == ""
      then elim api.home_dir [
        | ok home ↦ api.join home "credentials.json"
        | err e ↦ api.join api.temp_dir "credentials.json"
      ]
      else api.join api.credentials_dir "credentials.json"

  -- `os.ReadFile`, none for `os.ErrNotExist`
  read_file : String → Files → Fallible (Option String)
  read_file path files = elim (lookup path files) [
    | none ↦ ok none
    | some content ↦ elim (api.read_error path) [ none ↦ ok (some content) | some e ↦ err e ]
  ]

  -- the file as it was: removed, or written with its earlier content
  restore : String → Option String → Files → Option GoError × Files
  restore path none files = elim (lookup path files) [
    | none ↦ (some (api.not_there path), files)
    | some _ ↦ elim (api.remove_error path) [
      | none ↦ (none, erase path files)
      | some e ↦ (some e, files)
    ]
  ]
  restore path (some content) files = elim (api.write_error path) [
    | none ↦ (none, insert path content files)
    | some e ↦ (some e, files)
  ]

  -- `workspace.StoreAccount` of the spec's account
  abbrev pub with_account : BackendSpec → Files → Option GoError × Files
  with_account spec files =
      api.store_account (api.default_url spec.url) spec.token spec.insecure files

  module _ {A : Type 0} (open_backend : Files → Fallible A × Files) where
    -- the open, and the restore after it, once the account is stored
    open_and_restore : String → Option String → Files → Fallible A × Files
    unfolding restore
    open_and_restore path before files =
        let (result, opened) = open_backend files in
        let (failure, restored) = restore path before opened in
        elim failure [
          | none ↦ (result, restored)
          | some e ↦ (err (join_errors result (wrapped "restoring stored credentials" e)), restored)
        ]

    -- The result is the error, or the backend that `open_backend` leaves in the caller's variable.
    unfoldable pub with_spec_credentials : BackendSpec → Files → Fallible A × Files
    unfolding read_file open_and_restore credentials_file_path
    with_spec_credentials spec files =
        if spec.token == ""
        then open_backend files
        else let path = credentials_file_path in
          elim (read_file path files) [
            | err e ↦ (err (wrapped "reading stored credentials" e), files)
            | ok before ↦
                let (failure, stored) = with_account spec files in
                elim failure [
                  | some e ↦
                      (err (wrapped "storing credentials for the backend constructor" e), stored)
                  | none ↦ open_and_restore path before stored
                ]
          ]

  -- `diy` is `isDIYBackend(spec.URL)`
  unfoldable pub open_backend : Bool → BackendSpec → Files → Fallible api.Backend × Files
  open_backend diy spec files =
      let opening : GoError → GoError =
        λ e. unclassified (wrapped (concat ("opening backend " ∷ spec.url ∷ [])) e) in
      if diy
      then (map_err opening (api.diy_new spec.url), files)
      else let (result, after) =
          with_spec_credentials (api.http_new spec.url spec.insecure) spec files in
        (map_err opening result, after)

  read_file-lookup :
      (path : String) (files : Files)
      → api.read_error path ≡ none
      → read_file path files ≡ ok (lookup path files)
  unfolding read_file
  read_file-lookup path files reads = elim (Option-cases (lookup path files)) [
    | inl n ↦ rw (read_file, n) refl
    | inr (c, n) ↦ rw (read_file, n, reads) refl
  ]

  restore-lookup :
      (path j : String) (before : Option String) (files : Files)
      → (before ≡ none → is_some (lookup path files) ≡ true)
      → api.remove_error path ≡ none
      → api.write_error path ≡ none
      → ((restore path before files).0 ≡ none)
        × (lookup j (restore path before files).1 ≡ (if path == j then before else lookup j files))
  unfolding restore
  restore-lookup path j none files there removes writes = elim (Option-cases (lookup path files)) [
    | inl n ↦ absurd (cc (ap is_some n, there refl))
    | inr (c, n) ↦ rw (restore, n, removes) (refl, lookup-erase path j files)
  ]
  restore-lookup path j (some content) files there removes writes =
      rw (restore, writes) (refl, lookup-insert path j content files)

  module _ {A : Type 0} (open_backend : Files → Fallible A × Files) where
    open_and_restore-eq :
        (path : String) (before : Option String) (stored : Files)
        → (restore path before (open_backend stored).1).0 ≡ none
        → open_and_restore open_backend path before stored
          ≡ ((open_backend stored).0, (restore path before (open_backend stored).1).1)
    unfolding open_and_restore
    open_and_restore-eq path before stored h = rw (open_and_restore, h) refl

    -- With a token, and where the file system refuses nothing on the credentials file and
    -- `StoreAccount` succeeds, the file is after the call what it was before, there or not,
    -- whatever the constructor did to it, except that a file that was not there before must still
    -- be there when the constructor returns, for its removal to succeed; every other file is as the constructor left it, and the
    -- constructor's result, run on the stored account, is the result.
    pub with_spec_credentials-restores :
        (spec : BackendSpec) (files : Files) (j : String)
        → (spec.token == "") ≡ false
        → api.read_error (credentials_file_path) ≡ none
        → api.remove_error (credentials_file_path) ≡ none
        → api.write_error (credentials_file_path) ≡ none
        → (with_account spec files).0 ≡ none
        → (lookup credentials_file_path files ≡ none
            → is_some (lookup credentials_file_path (open_backend (with_account spec files).1).1)
              ≡ true)
        → ((with_spec_credentials open_backend spec files).0
            ≡ (open_backend (with_account spec files).1).0)
          × (lookup j (with_spec_credentials open_backend spec files).1 ≡ (
              if credentials_file_path == j
              then lookup credentials_file_path files
              else lookup j (open_backend (with_account spec files).1).1))
    unfolding with_spec_credentials
    with_spec_credentials-restores spec files j token reads removes writes accounts there =
        let path = credentials_file_path in
        let before = lookup path files in
        let stored = (with_account spec files).1 in
        let (done, kept) =
          restore-lookup path j before (open_backend stored).1 there removes writes in
        rw
          (
            with_spec_credentials,
            token,
            read_file-lookup path files reads,
            accounts,
            open_and_restore-eq path before stored done,
          )
          (refl, kept)
