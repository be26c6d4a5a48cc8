-- ===== src/Tests/Hosts.antt =====
-- engine/operation.go, engine/pluginhost.go and engine/program.go: a scope whose operation is
-- cancelled, a plugin host, and a local program.
use mathlib.Core.List.{Perm, perm_middle, append-nil}
use mathlib.Core.List.Perm
use pulumi_engine.Prelude.{
  ℕ, ◌≤◌, String, true, false, ◌==◌, ◌≡◌, refl, List, [], ◌∷◌, ◌++◌, none, some, if◌then◌else◌,
}
use pulumi_engine.Errors.{Foreign, foreign, plain_error, up, has_foreign, find_as}
use pulumi_engine.Errors.Fallible.{ok}
use pulumi_engine.Operation.{new_operation, cancel}
use pulumi_engine.Operation.Scope.{
  cancelled, Scope, new_scope, second_select, returned, Turn, take_cancel, Reach, start,
  call_cancel, turn, demanded,
}
use pulumi_engine.Operation.Scope.Signals.{signals-demanded, blocked_signals, IsBlocked}
use pulumi_engine.Host.{HostApi, new_host, close_host}
use pulumi_engine.Host.Calls.{Call, load, signal, close, run, launched_in, closed_in}
use pulumi_engine.Host.Lifetime.{IsRange, close_host-closes}
use pulumi_engine.Program.{
  Project, LocalProgram, PreparedProgram, ProgramApi, Installed, prepare, ensure_language_plugin,
}
use pulumi_engine.Program.Prepared.{IsLocal, Ensured, prepare_local_program}

-- one call of `Cancel`, which the goroutine has passed on
abbrev cancelled_scope : Scope
cancelled_scope = record (new_scope (cancel (new_operation up))) {
  phase = second_select;
  signals = cancelled ∷ [];
}

passed_on : Reach up 1 cancelled_scope
unfolding cancel
passed_on = turn (call_cancel start) (take_cancel refl refl)

signals-demanded_example : (m : ℕ) × (m ≤ 1) × (cancelled_scope.signals ≡ demanded m)
signals-demanded_example = signals-demanded up 1 cancelled_scope passed_on

waits : IsBlocked cancelled_scope
unfolding cancel
waits t (Turn.take_cancel at ready) = cc at
waits t (Turn.leave_first at closed) = cc at
waits t (Turn.take_terminate at ready) = cc ready
waits t (Turn.leave_second at closed) = cc closed

blocked_signals_example :
    (cancelled_scope.closed ≡ false → cancelled_scope.signals ≡ demanded 1)
    × (cancelled_scope.closed ≡ true → cancelled_scope.phase ≡ returned)
blocked_signals_example = blocked_signals up 1 cancelled_scope passed_on waits

-- A map's entries from the last to the first.
abbrev backwards : {A : Type 0} → List A → List A → List A
backwards [] ys = ys
backwards (x ∷ xs) ys = backwards xs (x ∷ ys)

backwards-perm : {A : Type 0} (xs ys : List A) → Perm (backwards xs ys) (xs ++ ys)
backwards-perm [] ys = Perm.refl ys
backwards-perm (x ∷ xs) ys = Perm.trans (backwards-perm xs (x ∷ ys)) (perm_middle xs ys)

-- A plugin and its client are known by the runtime's name, and closing fails for nodejs.
abbrev named_hosts : HostApi
named_hosts = record {
  Plug = String;
  Runtime = String;
  Provider = String;
  default_runtime = λ r. ok r;
  default_provider = λ p e. ok p.name;
  default_analyzer = λ n. none;
  default_signal = none;
  default_close = none;
  server_addr = "127.0.0.1:1";
  attach_port = λ r. ok none;
  plugin_path = λ n. ok n;
  delimiter = "/";
  kind_text = λ k. "plugin";
  launch = λ path r args env. ok r;
  client = λ r p. p;
  cancel_runtime = λ r. none;
  close_plug = λ p. if p == "nodejs" then some (plain_error "exit status 1") else none;
  global_env = none;
  range = λ d. backwards d [];
}

backwards_ranges : IsRange named_hosts
backwards_ranges d = rw append-nil at (backwards-perm d [])

abbrev loads : List (Call named_hosts)
loads = load "go" ∷ load "nodejs" ∷ load "go" ∷ signal ∷ []

close_host-closes_example :
    let opened = run named_hosts (new_host named_hosts (("REGION", "eu") ∷ [])) loads in
    let first = close_host named_hosts opened in
    let h = run named_hosts first.1 (signal ∷ close ∷ []) in
    Perm (closed_in named_hosts h.log) (launched_in named_hosts opened.log)
    × (launched_in named_hosts h.log ≡ launched_in named_hosts opened.log)
    × (close_host named_hosts h ≡ (first.0, h))
close_host-closes_example =
    close_host-closes named_hosts (("REGION", "eu") ∷ []) loads (signal ∷ close ∷ [])
      backwards_ranges (tt, (tt, (tt, (tt, tt)))) (tt, (tt, tt))

-- Projects are named web, and the plugin of their runtime is missing.
abbrev web_project : Project
web_project = record { name = "web"; runtime = record { name = "go"; options = [] }; main = "cmd" }

abbrev projects : ProgramApi
projects = record {
  SemVersion = String;
  start_server = ok "127.0.0.1:2";
  abs = λ d. ok d;
  join = λ d f. d;
  load_project = λ p. ok web_project;
  find_plugin = λ r. some (foreign Foreign.plugin_missing "no plugin");
  parse_version = λ v. ok v;
  install = λ r v. none;
}

abbrev web_program : LocalProgram
web_program = record { dir = "/srv/web"; language_version = "3.1.0" }

abbrev web_prepared : PreparedProgram
web_prepared = record {
  runtime = web_project.runtime;
  root = "/srv/web";
  main = "cmd";
  serves = false;
  project = some web_project;
}

abbrev web_installed : List (Installed projects)
web_installed = record { language = "go"; version = some "3.1.0" } ∷ []

prepare_local_program_example :
    (dir : String) × (project : Project) × IsLocal projects "web" web_program dir project
    × Ensured projects project.runtime.name web_program.language_version web_installed
    × (web_prepared.runtime ≡ project.runtime)
    × (web_prepared.root ≡ dir)
    × (web_prepared.main ≡ project.main)
    × (web_prepared.project ≡ some project)
unfolding prepare ensure_language_plugin has_foreign find_as
prepare_local_program_example =
    prepare_local_program projects "/srv" "web" web_program web_prepared web_installed refl
