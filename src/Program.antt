-- ===== src/Program.antt =====
-- engine/program.go: the programs that an operation can run, and what it needs of each.
pub mod Prepared
use pulumi_engine.Prelude.{
  String, Bool, true, false, not, ◌==◌, List, [], ◌∷◌, Option, none, some, Dict, if◌then◌else◌,
}
use pulumi_engine.Text.{concat, quote}
use pulumi_engine.Errors.{Foreign, GoError, invalid, wrapped, has_foreign}
use pulumi_engine.Errors.Message.{error_text}
use pulumi_engine.Errors.Fallible.{Fallible, ok, err}

-- `workspace.ProjectRuntimeInfo`
pub record RuntimeInfo : Type 0 where
  pub name : String
  pub options : Dict String

-- `workspace.Project`, as far as it is used here
pub record Project : Type 0 where
  pub name : String
  pub runtime : RuntimeInfo
  pub main : String

pub record LocalProgram : Type 0 where
  pub dir : String
  pub language_version : String

-- `Program`: `GoProgram`, `CallbackProgram` by its address, and `LocalProgram`
pub data Program : Type 0 where
  go_program : Program
  callback_program : String → Program
  local_program : LocalProgram → Program

-- `preparedProgram`; `serves` says whether its close stops a server
pub record PreparedProgram : Type 0 where
  pub runtime : RuntimeInfo
  pub root : String
  pub main : String
  pub serves : Bool
  pub project : Option Project

-- The server of Go programs, the file system, and Pulumi's plugins.
pub record ProgramApi : Type 1 where
  pub SemVersion : Type 0
  -- `upstream.StartLanguageRuntimeServer`: the server's address
  pub start_server : Fallible String
  -- `filepath.Abs`, `filepath.Join` and `workspace.LoadProject`
  pub abs : String → Fallible String
  pub join : String → String → String
  pub load_project : String → Fallible Project
  -- `workspace.GetPluginPath` for a language: the error, if any
  pub find_plugin : String → Option GoError
  -- `semver.ParseTolerant`
  pub parse_version : String → Fallible SemVersion
  -- `pkgworkspace.InstallPlugin` at a version, or at the latest: the error, if any
  pub install : String → Option SemVersion → Option GoError

abbrev client_runtime : String → RuntimeInfo
client_runtime address = record { name = "client"; options = ("address", address) ∷ [] }

module _ (api : ProgramApi) where
  open api use {
    SemVersion, start_server, abs, join, load_project, find_plugin, parse_version, install,
  }

  -- an installation that was asked for
  pub record Installed : Type 0 where
    pub language : String
    pub version : Option SemVersion

  pub install_plugin : String → Option SemVersion → Option GoError × List Installed
  install_plugin runtime version = (
    elim (install runtime version) [
      | none ↦ none
      | some e ↦ some (wrapped (concat ("installing language plugin " ∷ quote runtime ∷ [])) e)
    ],
    record { language = runtime; version = version } ∷ [],
  )

  -- the plugin was not found: the version that is asked for, and the installation
  pub install_missing : String → String → Option GoError × List Installed
  unfolding install_plugin
  install_missing runtime version =
      if version == "" then install_plugin runtime none else elim (parse_version version) [
        | err e ↦ (some (invalid "program.languageVersion" (error_text e)), [])
        | ok v ↦ install_plugin runtime (some v)
      ]

  -- `ensureLanguagePlugin`: the error, if any, and what was installed
  unfoldable pub ensure_language_plugin : String → String → Option GoError × List Installed
  unfolding install_missing
  ensure_language_plugin runtime version = elim (find_plugin runtime) [
    | none ↦ (none, [])
    | some e ↦
        if has_foreign Foreign.plugin_missing e
        then install_missing runtime version
        else (some (wrapped (concat ("locating language plugin " ∷ quote runtime ∷ [])) e), [])
  ]

  -- the project of a local program, in its absolute directory
  pub local_project : String → LocalProgram → Fallible (String × Project)
  local_project stack_project p =
      if p.dir == ""
      then err (invalid "program.dir" "local program directory is required")
      else elim (abs p.dir) [
        | err e ↦ err (invalid "program.dir" (error_text e))
        | ok dir ↦ elim (load_project (join dir "Pulumi.yaml")) [
          | err e ↦
              err (invalid "program.dir" (concat ("loading Pulumi.yaml: " ∷ error_text e ∷ [])))
          | ok project ↦
              if not (project.name == stack_project)
              then err (
                  invalid "program.dir" (
                    concat (
                      "Pulumi.yaml project "
                      ∷ quote project.name
                      ∷ " does not match the stack's project "
                      ∷ quote stack_project
                      ∷ [])))
              else ok (dir, project)
        ]
      ]

  -- the plugin of a local program, and what the operation needs
  pub local_prepared : LocalProgram → String → Project → Fallible PreparedProgram × List Installed
  local_prepared p dir project =
      let (failure, installed) = ensure_language_plugin project.runtime.name p.language_version in
      (
        elim failure [
          | some e ↦ err e
          | none ↦ ok (record {
            runtime = project.runtime;
            root = dir;
            main = project.main;
            serves = false;
            project = some project;
          })
        ],
        installed,
      )

  -- `Program.prepare` on a stack with this root and project: the program or an error, and what was
  -- installed
  unfoldable pub prepare : String → String → Program → Fallible PreparedProgram × List Installed
  unfolding local_project local_prepared
  prepare root stack_project go_program = elim start_server [
    | err e ↦ (err (wrapped "starting in-process language runtime" e), [])
    | ok address ↦ (
      ok (record {
        runtime = client_runtime address;
        root = root;
        main = "";
        serves = true;
        project = none;
      }),
      [],
    )
  ]
  prepare root stack_project (callback_program address) =
      if address == ""
      then (err (invalid "program.address" "callback program address is required"), [])
      else (
        ok (record {
          runtime = client_runtime address;
          root = root;
          main = "";
          serves = false;
          project = none;
        }),
        [],
      )
  prepare root stack_project (local_program p) = elim (local_project stack_project p) [
    | err e ↦ (err e, [])
    | ok (dir, project) ↦ local_prepared p dir project
  ]
