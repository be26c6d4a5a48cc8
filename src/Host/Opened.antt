-- ===== src/Host/Opened.antt =====
-- engine/pluginhost.go: an open plugin host holds the language hosts that it has started.
use pulumi_engine.Prelude.{
  String, List, [], ◌∷◌, ◌++◌, ◌≡◌, refl, sym, ap, ◌∙◌, none, some, is_empty, lookup, Bool-cases,
  Option-cases, inl, inr,
}
use mathlib.Core.List.{append-nil}
use pulumi_engine.Errors.Fallible.{Fallible-cases}
use pulumi_engine.Host.{
  HostApi, PluginKind, analyzer, language, resource, PluginDescriptor, Flags, Effect, launched,
  OperationHost, launch_plug, add_host, launch_host, own_runtime, language_runtime, ensure_language,
  ensure_plugin, ensure_plugins,
}
use pulumi_engine.Host.Calls.{
  launched_in, closed_in, plugs_of, launched_in-append, closed_in-append, plugs_of-insert,
}

module _ (api : HostApi) where
  open api use {Plug, Runtime}

  -- An open host has started exactly the language hosts that it holds, and closed none.
  pub record IsOpen (h : OperationHost api) : Type 0 where
    pub not_ended : h.ended ≡ none
    pub started : launched_in api h.log ≡ plugs_of api h.langs
    pub none_closed : closed_in api h.log ≡ []

  -- what changes neither the host nor what its log says of plugins
  pub log-IsOpen :
      (h : OperationHost api) (es : List (Effect api))
      → launched_in api es ≡ []
      → closed_in api es ≡ []
      → IsOpen h
      → IsOpen (record h { log = h.log ++ es })
  log-IsOpen h es l c v = record {
    not_ended = v.not_ended;
    started =
        launched_in-append api h.log es
        ∙ ap (λ x. launched_in api h.log ++ x) l
        ∙ append-nil (launched_in api h.log)
        ∙ v.started;
    none_closed = closed_in-append api h.log es ∙ rw (v.none_closed, c) refl;
  }

  add_host-IsOpen :
      (h : OperationHost api) (runtime : String) (plug : Plug)
      → lookup runtime h.langs ≡ none
      → IsOpen h
      → IsOpen (add_host api h runtime plug)
  add_host-IsOpen h runtime plug new v = record {
    not_ended = v.not_ended;
    started =
        launched_in-append api h.log (launched plug ∷ [])
        ∙ ap (λ x. x ++ plug ∷ []) v.started
        ∙ sym (plugs_of-insert api runtime _ h.langs new);
    none_closed = closed_in-append api h.log (launched plug ∷ []) ∙ rw v.none_closed refl;
  }

  launch_host-IsOpen :
      (h : OperationHost api) (runtime : String)
      → lookup runtime h.langs ≡ none
      → IsOpen h
      → IsOpen (launch_host api h runtime).1
  unfolding launch_host
  launch_host-IsOpen h runtime new v = elim (Fallible-cases (launch_plug api h runtime)) [
    | inl (plug, e) ↦ rw (launch_host, e) (add_host-IsOpen h runtime plug new v)
    | inr (x, e) ↦ rw (launch_host, e) v
  ]

  own_runtime-IsOpen :
      (h : OperationHost api) (runtime : String) → IsOpen h → IsOpen (own_runtime api h runtime).1
  unfolding own_runtime
  own_runtime-IsOpen h runtime v = elim (Option-cases (lookup runtime h.langs)) [
    | inr (l, e) ↦ rw (own_runtime, e) v
    | inl new ↦ rw (own_runtime, new) (launch_host-IsOpen h runtime new v)
  ]

  -- The loading of a runtime either leaves the host or goes through its own language hosts.
  pub language_runtime-IsOpen :
      (h : OperationHost api) (runtime : String)
      → IsOpen h
      → IsOpen (language_runtime api h runtime).1
  unfolding language_runtime
  language_runtime-IsOpen h runtime v = elim (Bool-cases (is_empty h.env)) [
    | inl nil ↦ rw (language_runtime, nil) v
    | inr env ↦ elim (Fallible-cases (api.attach_port runtime)) [
      | inr (x, e) ↦ rw (language_runtime, env, e) v
      | inl (none, e) ↦ rw (language_runtime, env, e) (own_runtime-IsOpen h runtime v)
      | inl (some port, e) ↦ rw (language_runtime, env, e) v
    ]
  ]

  ensure_language-IsOpen :
      (h : OperationHost api) (name : String) → IsOpen h → IsOpen (ensure_language api h name).1
  unfolding ensure_language
  ensure_language-IsOpen h name v =
      let after = language_runtime-IsOpen h name v in
      elim (Fallible-cases (language_runtime api h name).0) [
        | inl (r, e) ↦ rw (ensure_language, e) after
        | inr (x, e) ↦ rw (ensure_language, e) after
      ]

  ensure_plugin-IsOpen :
      (flags : Flags) (h : OperationHost api) (kind : PluginKind) (p : PluginDescriptor)
      → IsOpen h
      → IsOpen (ensure_plugin api flags h kind p).1
  unfolding ensure_plugin
  ensure_plugin-IsOpen flags h analyzer p v = elim (Bool-cases flags.analyzers) [
    | inl e ↦ rw e v
    | inr e ↦ rw e v
  ]
  ensure_plugin-IsOpen flags h language p v = elim (Bool-cases flags.languages) [
    | inl e ↦ rw e (ensure_language-IsOpen h p.name v)
    | inr e ↦ rw e v
  ]
  ensure_plugin-IsOpen flags h resource p v = elim (Bool-cases flags.resources) [
    | inl e ↦ rw e v
    | inr e ↦ rw e v
  ]
  ensure_plugin-IsOpen flags h _ p v = v

  pub ensure_plugins-IsOpen :
      (flags : Flags) (h : OperationHost api) (ps : List PluginDescriptor)
      → IsOpen h
      → IsOpen (ensure_plugins api flags h ps).1
  unfolding ensure_plugins
  ensure_plugins-IsOpen flags h [] v = v
  ensure_plugins-IsOpen flags h (p ∷ ps) v =
      ensure_plugins-IsOpen flags (ensure_plugin api flags h p.kind p).1 ps
        (ensure_plugin-IsOpen flags h p.kind p v)
