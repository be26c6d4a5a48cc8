-- ===== src/Stdout/Routing.antt =====
-- engine/stdout.go: the listeners of a stack over the life of an operation.
use pulumi_engine.Prelude.{
  String, true, false, not, ◌≡◌, refl, ◌∙◌, ap, List, [], ◌∷◌, ◌++◌, none, some, Dict, lookup,
  insert, erase, lookup-insert, lookup-erase, Option-cases, inl, inr, All, is_empty, is_some, eqb,
  arith, eq_iff, eq_refl,
}
use pulumi_engine.Stdout.{
  Listener, Capture, listening, without_listener, listen_stdout, unlisten_stdout,
}

-- None of the listeners is o.
abbrev pub NotAmong : Listener → List Listener → Type 0
NotAmong o ops = All (λ p. eqb p.id o.id ≡ false) ops

without_listener-snoc :
    (o : Listener) (ops : List Listener) → NotAmong o ops → without_listener o (ops ++ o ∷ []) ≡ ops
unfolding without_listener
without_listener-snoc o [] h = ground arith
without_listener-snoc o (p ∷ ops) h = rw (h.0) (ap (λ r. p ∷ r) (without_listener-snoc o ops h.1))

listening-listen_stdout :
    (stack : String) (o : Listener) (c : Capture)
    → listening (lookup stack (listen_stdout stack o c).listeners)
      ≡ listening (lookup stack c.listeners) ++ o ∷ []
unfolding listen_stdout
listening-listen_stdout stack o c =
    rw
      (
        lookup-insert stack stack (listening (lookup stack c.listeners) ++ o ∷ []) c.listeners,
        eq_refl stack,
      )
      refl

module _ {V : Type 0} where
  erase-insert :
      (stack j : String) (fresh : V) (d : Dict V)
      → lookup stack d ≡ none
      → lookup j (erase stack (insert stack fresh d)) ≡ lookup j d
  erase-insert stack j fresh d n = ground (
    arith,
    eq_iff stack j,
    lookup-erase stack j (insert stack fresh d),
    lookup-insert stack j fresh d,
  )

  insert-insert :
      (stack j : String) (old fresh : V) (d : Dict V)
      → lookup stack d ≡ some old
      → lookup j (insert stack old (insert stack fresh d)) ≡ lookup j d
  insert-insert stack j old fresh d n = ground (
    arith,
    eq_iff stack j,
    lookup-insert stack j old (insert stack fresh d),
    lookup-insert stack j fresh d,
  )

-- An operation that listens on a stack and stops listening leaves every stack's listeners as they
-- were. That is for an operation that did not listen before, on a stack whose entry, if there is
-- one, is not empty.
pub unlisten_stdout-listen_stdout :
    (stack : String) (o : Listener) (c : Capture) (j : String)
    → NotAmong o (listening (lookup stack c.listeners))
    → is_empty (listening (lookup stack c.listeners)) ≡ not (is_some (lookup stack c.listeners))
    → lookup j (unlisten_stdout stack o (listen_stdout stack o c)).listeners ≡ lookup j c.listeners
unfolding unlisten_stdout listen_stdout
unlisten_stdout-listen_stdout stack o c j absent entry =
    let before = listening (lookup stack c.listeners) in
    let after = listening-listen_stdout stack o c in
    let back = without_listener-snoc o before absent in
    elim (Option-cases (lookup stack c.listeners)) [
      | inl n ↦
          let gone : is_empty before ≡ true = rw n refl in
          rw (after, back, gone) (erase-insert stack j (before ++ o ∷ []) c.listeners n)
      | inr (ops, n) ↦
          let kept : is_empty before ≡ false = entry ∙ rw n refl in
          let same : lookup stack c.listeners ≡ some before = rw n refl in
          rw (after, back, kept) (insert-insert stack j before (before ++ o ∷ []) c.listeners same)
    ]
