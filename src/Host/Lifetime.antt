-- ===== src/Host/Lifetime.antt =====
-- engine/pluginhost.go: the language hosts of a plugin host are closed, each once.
use pulumi_engine.Prelude.{
  String, List, [], ◌∷◌, ◌++◌, ◌≡◌, refl, sym, ap, ◌∙◌, Option, some, Dict, All, arith,
}
use mathlib.Core.Path.{subst}
use mathlib.Core.List.{append-nil, Perm}
use pulumi_engine.Host.{
  HostApi, Launched, default_signalled, OperationHost, new_host, signal_cancellation, cancel_log,
  close_log, close_host,
}
use pulumi_engine.Errors.{GoError}
use pulumi_engine.Host.Calls.{
  Call, load, ensure, signal, close, step, run, launched_in, closed_in, launched_in-append,
  closed_in-append, launched_in-cancel_log, closed_in-cancel_log, launched_in-close_log,
  closed_in-close_log, plugs_of-Perm,
}
use pulumi_engine.Host.Opened.{IsOpen, log-IsOpen, language_runtime-IsOpen, ensure_plugins-IsOpen}

-- A `range` takes every entry once.
abbrev pub IsRange : HostApi → Type 0
IsRange api = (d : Dict (Launched api)) → Perm (api.range d) d

module _ (api : HostApi) where
  open api use {Plug, Runtime}

  -- calls that may come before and after the host is closed
  abbrev pub IsBefore : Call api → Type 0
  IsBefore close = ⊥
  IsBefore _ = Unit

  abbrev pub IsAfter : Call api → Type 0
  IsAfter close = Unit
  IsAfter signal = Unit
  IsAfter _ = ⊥

  step-IsOpen :
      (h : OperationHost api) (c : Call api) → IsBefore c → IsOpen api h → IsOpen api (step api h c)
  unfolding step signal_cancellation
  step-IsOpen h (load runtime) b v = language_runtime-IsOpen api h runtime v
  step-IsOpen h (ensure flags ps) b v = ensure_plugins-IsOpen api flags h ps v
  step-IsOpen h signal b v =
      log-IsOpen api h (default_signalled ∷ cancel_log api (api.range h.langs))
        (launched_in-cancel_log api (api.range h.langs))
        (closed_in-cancel_log api (api.range h.langs)) v
  step-IsOpen h close b v = absurd b

  run-IsOpen :
      (h : OperationHost api) (cs : List (Call api))
      → All IsBefore cs
      → IsOpen api h
      → IsOpen api (run api h cs)
  unfolding run
  run-IsOpen h [] b v = v
  run-IsOpen h (c ∷ cs) b v = run-IsOpen (step api h c) cs b.1 (step-IsOpen h c b.0 v)

  -- A closed host holds no language host, has closed exactly those that it started, and keeps its
  -- error.
  record IsClosed (e : Option GoError) (ps : List Plug) (h : OperationHost api) : Type 0 where
    is_ended : h.ended ≡ some e
    started_were : launched_in api h.log ≡ ps
    closed_were : Perm (closed_in api h.log) ps

  close_host-IsClosed :
      (h : OperationHost api)
      → IsRange api
      → IsOpen api h
      → IsClosed (close_host api h).0 (launched_in api h.log) (close_host api h).1
  unfolding close_host
  close_host-IsClosed h ranges v =
      rw (close_host, v.not_ended)
        (record {
          is_ended = refl;
          started_were =
              launched_in-append api h.log (close_log api (api.range h.langs))
              ∙ ap (λ x. launched_in api h.log ++ x) (launched_in-close_log api (api.range h.langs))
              ∙ append-nil (launched_in api h.log);
          closed_were =
              rw
                (
                  closed_in-append api h.log (close_log api (api.range h.langs)),
                  v.none_closed,
                  closed_in-close_log api (api.range h.langs),
                  v.started,
                )
                (plugs_of-Perm api (ranges h.langs));
        })

  close_host_again :
      (e : Option GoError) (h : OperationHost api) → h.ended ≡ some e → close_host api h ≡ (e, h)
  unfolding close_host
  close_host_again e h at = ground (arith, at)

  signal-IsClosed :
      (e : Option GoError) (ps : List Plug) (h : OperationHost api)
      → IsClosed e ps h
      → IsClosed e ps (signal_cancellation api h).1
  unfolding signal_cancellation
  signal-IsClosed e ps h v =
      let es = default_signalled ∷ cancel_log api (api.range h.langs) in
      record {
        is_ended = v.is_ended;
        started_were =
            launched_in-append api h.log es
            ∙ ap (λ x. launched_in api h.log ++ x) (launched_in-cancel_log api (api.range h.langs))
            ∙ append-nil (launched_in api h.log)
            ∙ v.started_were;
        closed_were =
            subst (λ x. Perm x ps)
              (sym (
                closed_in-append api h.log es
                ∙ ap (λ x. closed_in api h.log ++ x) (closed_in-cancel_log api (api.range h.langs))
                ∙ append-nil (closed_in api h.log)))
              v.closed_were;
      }

  run-IsClosed :
      (e : Option GoError) (ps : List Plug) (h : OperationHost api) (cs : List (Call api))
      → All IsAfter cs
      → IsClosed e ps h
      → IsClosed e ps (run api h cs)
  unfolding run step
  run-IsClosed e ps h [] a v = v
  run-IsClosed e ps h (signal ∷ cs) a v =
      run-IsClosed e ps (signal_cancellation api h).1 cs a.1 (signal-IsClosed e ps h v)
  run-IsClosed e ps h (close ∷ cs) a v =
      let same : (close_host api h).1 ≡ h = ap (λ x. x.1) (close_host_again e h v.is_ended) in
      run-IsClosed e ps (close_host api h).1 cs a.1 (rw same v)
  run-IsClosed e ps h (load r ∷ cs) a v = absurd a.0
  run-IsClosed e ps h (ensure f ds ∷ cs) a v = absurd a.0

  new_host-IsOpen : (env : Dict String) → IsOpen api (new_host api env)
  new_host-IsOpen env = record { not_ended = refl; started = refl; none_closed = refl }

  -- Whatever is loaded and signalled on a new host, and whatever fails: the first `Close` closes
  -- every language host that was started, each once, in whatever order the `range` over the map
  -- takes them; signals and further calls of `Close` then start and close none, and `Close` keeps
  -- returning the first one's error. That is where nothing is loaded after the first `Close`.
  pub close_host-closes :
      (env : Dict String) (before after : List (Call api))
      → IsRange api
      → All IsBefore before
      → All IsAfter after
      → let opened = run api (new_host api env) before in
        let first = close_host api opened in
        let h = run api first.1 after in
        Perm (closed_in api h.log) (launched_in api opened.log)
        × (launched_in api h.log ≡ launched_in api opened.log)
        × (close_host api h ≡ (first.0, h))
  close_host-closes env before after ranges b a =
      let opened = run api (new_host api env) before in
      let is_open = run-IsOpen (new_host api env) before b (new_host-IsOpen env) in
      let done =
        run-IsClosed (close_host api opened).0 (launched_in api opened.log)
          (close_host api opened).1 after a (close_host-IsClosed opened ranges is_open) in
      (
        done.closed_were,
        done.started_were,
        close_host_again (close_host api opened).0 (run api (close_host api opened).1 after)
            done.is_ended,
      )
