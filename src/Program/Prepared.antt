-- ===== src/Program/Prepared.antt =====
-- engine/program.go: when a program is prepared, and when a language plugin is installed.
use pulumi_engine.Prelude.{
  String, true, false, ◌==◌, ◌≡◌, ◌↔◌, refl, ap, List, [], ◌∷◌, Option, none, some, Bool-cases,
  Option-cases, inl, inr, arith,
}
use mathlib.Core.Path.{subst}
use pulumi_engine.Errors.{Foreign, GoError, has_foreign}
use pulumi_engine.Errors.Fallible.{Fallible, ok, Fallible-cases, ok_inj}
use pulumi_engine.Program.{
  Project, LocalProgram, local_program, PreparedProgram, ProgramApi, Installed,
  ensure_language_plugin, install_plugin, install_missing, local_project, local_prepared, prepare,
}

module _ (api : ProgramApi) where
  open api use {SemVersion}

  -- the version that is to be installed
  abbrev pub AsksFor : String → Option SemVersion → Type 0
  AsksFor version none = (version == "") ≡ true
  AsksFor version (some v) = ((version == "") ≡ false) × (api.parse_version version ≡ ok v)

  -- The two ways in which a language's plugin comes to be there, with what is installed: it is
  -- found, or it is missing and is installed.
  pub data Ensured (runtime version : String) : List (Installed api) → Type 0 where
    found : api.find_plugin runtime ≡ none → Ensured runtime version []
    installs :
        (e : GoError) (v : Option SemVersion)
        → api.find_plugin runtime ≡ some e
        → has_foreign Foreign.plugin_missing e ≡ true
        → AsksFor version v
        → api.install runtime v ≡ none
        → Ensured runtime version (record { language = runtime; version = v } ∷ [])

  install_plugin-eq-none :
      (runtime : String) (v : Option SemVersion) (installed : List (Installed api))
      → install_plugin api runtime v ≡ (none, installed)
      → (api.install runtime v ≡ none)
        × (record { language = runtime; version = v } ∷ [] ≡ installed)
  unfolding install_plugin
  install_plugin-eq-none runtime v installed h = elim (Option-cases (api.install runtime v)) [
    | inl e ↦ (e, ap (λ x. x.1) h)
    | inr (x, e) ↦ absurd (ground (arith, e, h))
  ]

  -- a plugin that is missing
  module _ (runtime version : String) (e : GoError) where
    installs_at :
        (v : Option SemVersion) (installed : List (Installed api))
        → api.find_plugin runtime ≡ some e
        → has_foreign Foreign.plugin_missing e ≡ true
        → AsksFor version v
        → install_plugin api runtime v ≡ (none, installed)
        → Ensured runtime version installed
    installs_at v installed f m a h =
        let (done, same) = install_plugin-eq-none runtime v installed h in
        subst (Ensured runtime version) same (installs e v f m a done)

    install_missing-Ensured :
        (installed : List (Installed api))
        → api.find_plugin runtime ≡ some e
        → has_foreign Foreign.plugin_missing e ≡ true
        → install_missing api runtime version ≡ (none, installed)
        → Ensured runtime version installed
    unfolding install_missing
    install_missing-Ensured installed f m h = elim (Bool-cases (version == "")) [
      | inl z ↦ installs_at none installed f m z (rw (install_missing, z) at h)
      | inr n ↦ elim (Fallible-cases (api.parse_version version)) [
        | inl (v, p) ↦ installs_at (some v) installed f m (n, p) (rw (install_missing, n, p) at h)
        | inr (x, p) ↦ absurd (cc (rw (install_missing, n, p) at h))
      ]
    ]

  ensured :
      (runtime version : String) (installed : List (Installed api))
      → ensure_language_plugin api runtime version ≡ (none, installed)
      → Ensured runtime version installed
  unfolding ensure_language_plugin
  ensured runtime version installed h = elim (Option-cases (api.find_plugin runtime)) [
    | inl f ↦
        let same : ◌≡◌ {A = List (Installed api)} [] installed =
          ap (λ x. x.1) (rw (ensure_language_plugin, f) at h) in
        subst (Ensured runtime version) same (found f)
    | inr (e, f) ↦ elim (Bool-cases (has_foreign Foreign.plugin_missing e)) [
      | inl m ↦
          install_missing-Ensured runtime version e installed f m
            (rw (ensure_language_plugin, f, m) at h)
      | inr n ↦ absurd (cc (rw (ensure_language_plugin, f, n) at h))
    ]
  ]

  ensures :
      (runtime version : String) (installed : List (Installed api))
      → Ensured runtime version installed
      → ensure_language_plugin api runtime version ≡ (none, installed)
  unfolding ensure_language_plugin install_missing install_plugin
  ensures runtime version _ (found f) = rw (ensure_language_plugin, f) refl
  ensures runtime version _ (installs e none f m a done) =
      rw (ensure_language_plugin, f, m, install_missing, a, done) refl
  ensures runtime version _ (installs e (some v) f m a done) =
      rw (ensure_language_plugin, f, m, install_missing, a.0, a.1, done) refl

  -- `ensureLanguagePlugin` returns no error exactly if the plugin is found, and then nothing is
  -- installed, or if it is missing and its one installation, at the version that is pinned or
  -- else at the latest, succeeds.
  pub ensure_language_plugin-eq-none :
      (runtime version : String) (installed : List (Installed api))
      → (ensure_language_plugin api runtime version ≡ (none, installed))
        ↔ Ensured runtime version installed
  ensure_language_plugin-eq-none runtime version installed =
      (ensured runtime version installed, ensures runtime version installed)

  -- what `local_project` has checked
  pub record IsLocal (stack_project : String) (p : LocalProgram) (dir : String) (project : Project)
      : Type 0 where
    pub named : (p.dir == "") ≡ false
    pub absolute : api.abs p.dir ≡ ok dir
    pub loaded : api.load_project (api.join dir "Pulumi.yaml") ≡ ok project
    pub matches : (project.name == stack_project) ≡ true

  local_project-IsLocal :
      (stack_project : String) (p : LocalProgram) (dir : String) (project : Project)
      → local_project api stack_project p ≡ ok (dir, project)
      → IsLocal stack_project p dir project
  unfolding local_project
  local_project-IsLocal stack_project p dir project h = elim (Bool-cases (p.dir == "")) [
    | inl z ↦ absurd (cc (rw (local_project, z) at h))
    | inr n ↦ elim (Fallible-cases (api.abs p.dir)) [
      | inr (x, a) ↦ absurd (cc (rw (local_project, n, a) at h))
      | inl (d, a) ↦ elim (Fallible-cases (api.load_project (api.join d "Pulumi.yaml"))) [
        | inr (x, l) ↦ absurd (cc (rw (local_project, n, a, l) at h))
        | inl (q, l) ↦ elim (Bool-cases (q.name == stack_project)) [
          | inr m ↦ absurd (cc (rw (local_project, n, a, l, m) at h))
          | inl m ↦
              let same : ◌≡◌ {A = Fallible (String × Project)} (ok (d, q)) (ok (dir, project)) =
                rw (local_project, n, a, l, m) at h in
              subst (λ x. IsLocal stack_project p x.0 x.1) (ok_inj (d, q) (dir, project) same)
                (record { named = n; absolute = a; loaded = l; matches = m })
        ]
      ]
    ]
  ]

  local_prepared-eq-ok :
      (p : LocalProgram) (dir : String) (project : Project) (prepared : PreparedProgram)
      (installed : List (Installed api))
      → local_prepared api p dir project ≡ (ok prepared, installed)
      → Ensured project.runtime.name p.language_version installed
        × (prepared.runtime ≡ project.runtime)
        × (prepared.root ≡ dir)
        × (prepared.main ≡ project.main)
        × (prepared.project ≡ some project)
  unfolding local_prepared
  local_prepared-eq-ok p dir project prepared installed h =
      let ensuring = ensure_language_plugin api project.runtime.name p.language_version in
      elim (Option-cases ensuring.0) [
        | inr (e, f) ↦ absurd (cc (rw (local_prepared, f) at h))
        | inl f ↦
            let made = rw (local_prepared, f) at h in
            (
              ensured project.runtime.name p.language_version installed
                  (λ i. (f i, (ap (λ x. x.1) made) i)),
              ground (arith, made),
              ground (arith, made),
              ground (arith, made),
              ground (arith, made),
            )
      ]

  -- A local program that `prepare` accepts names its directory; the Pulumi.yaml there, at its
  -- absolute path, names the stack's project, and gives the runtime and the entry point; and the
  -- runtime's language plugin was found or has been installed.
  pub prepare_local_program :
      (root stack_project : String) (p : LocalProgram) (prepared : PreparedProgram)
      (installed : List (Installed api))
      → prepare api root stack_project (local_program p) ≡ (ok prepared, installed)
      → (dir : String) × (project : Project) × IsLocal stack_project p dir project
        × Ensured project.runtime.name p.language_version installed
        × (prepared.runtime ≡ project.runtime)
        × (prepared.root ≡ dir)
        × (prepared.main ≡ project.main)
        × (prepared.project ≡ some project)
  unfolding prepare
  prepare_local_program root stack_project p prepared installed h =
      elim (Fallible-cases (local_project api stack_project p)) [
        | inr (e, l) ↦ absurd (cc (rw (prepare, l) at h))
        | inl ((dir, project), l) ↦
            let found =
              local_prepared-eq-ok p dir project prepared installed (rw (prepare, l) at h) in
            (
              dir,
              project,
              local_project-IsLocal stack_project p dir project l,
              found.0,
              found.1,
              found.2,
              found.3,
              found.4,
            )
      ]
