-- ===== src/Stdout/Accounts.antt =====
-- engine/stdout.go: what becomes of every byte that the pump reads, with the routing of its lines.
use Prim.Native.String.{◌++◌ as append}
use mathlib.Core.List.{append-nil}
use pulumi_engine.Prelude.{
  ℕ, String, Bool, true, ◌==◌, ◌≡◌, refl, sym, ◌∙◌, ap, List, [], ◌∷◌, ◌++◌, Option, none, some,
  map, lookup, if◌then◌else◌, Bool-cases, Option-cases, inl, inr,
}
use pulumi_engine.Text.{has_prefix, trim_space, trim_prefix}
use pulumi_engine.Stdout.{
  Piece, forwarded, routed, Chunk, read, last, PumpState, maybe_banner, ends_line, whole_line,
  take_text, flush_partial, pump_stdout, flush_sentinel, Capture, listening, first_with_verb,
  flush_waiter, route_banner, route_stdout_line,
}
use pulumi_engine.Stdout.Forwarding.{held_text, chunks_text, pump_stdout-conserves}

-- The texts of the lines that were handed to operations.
abbrev pub handed_texts : Capture → List String
handed_texts c = map (λ h. h.1) c.handed

firsts-append :
    (hs : List (ℕ × String)) (h : ℕ × String)
    → map (λ h. h.1) (hs ++ h ∷ []) ≡ map (λ h. h.1) hs ++ h.1 ∷ []
firsts-append [] h = refl
firsts-append (g ∷ hs) h = ap (λ ts. g.1 ∷ ts) (firsts-append hs h)

module _ (plain : String → String) (match_banner : String → Option (String × String)) where
  abbrev pub route_line : String → Capture → Bool × Capture
  route_line = route_stdout_line plain match_banner

  -- What the lines that were consumed are to their operations: their text without colours and
  -- with one newline, the lines of flushes left out.
  abbrev pub banner_texts : List Piece → List String
  banner_texts [] = []
  banner_texts (forwarded s ∷ ps) = banner_texts ps
  banner_texts (routed s ∷ ps) =
      if has_prefix s flush_sentinel
      then banner_texts ps
      else append (plain s) "\n" ∷ banner_texts ps

  banner_texts-append :
      (ps qs : List Piece) → banner_texts (ps ++ qs) ≡ banner_texts ps ++ banner_texts qs
  banner_texts-append [] qs = refl
  banner_texts-append (forwarded s ∷ ps) qs = banner_texts-append ps qs
  banner_texts-append (routed s ∷ ps) qs = elim (Bool-cases (has_prefix s flush_sentinel)) [
    | inl y ↦ rw y (banner_texts-append ps qs)
    | inr n ↦ rw n (ap (λ ts. append (plain s) "\n" ∷ ts) (banner_texts-append ps qs))
  ]

  flush_waiter-handed :
      (id : String) (c : Capture)
      → ((flush_waiter plain match_banner id c).0 ≡ true)
        × (handed_texts (flush_waiter plain match_banner id c).1 ≡ handed_texts c)
  unfolding flush_waiter
  flush_waiter-handed id c = elim (Option-cases (lookup id c.flushes)) [
    | inl n ↦ rw (flush_waiter, n) (refl, refl)
    | inr (t, n) ↦ rw (flush_waiter, n) (refl, refl)
  ]

  route_banner-handed :
      (text : String) (m : Option (String × String)) (c : Capture)
      → handed_texts (route_banner plain match_banner text m c).1
        ≡ handed_texts c
          ++ (if (route_banner plain match_banner text m c).0 then append text "\n" ∷ [] else [])
  unfolding route_banner
  route_banner-handed text none c = sym (append-nil (handed_texts c))
  route_banner-handed text (some (verb, stack)) c =
      elim (Option-cases (first_with_verb verb (listening (lookup stack c.listeners)))) [
        | inl n ↦ rw (route_banner, n) (sym (append-nil (handed_texts c)))
        | inr (o, n) ↦ rw (route_banner, n) (firsts-append c.handed (o.id, append text "\n"))
      ]

  abbrev piece_of : Bool → String → Piece
  piece_of consumed line = if consumed then routed line else forwarded line

  route_line-handed :
      (line : String) (c : Capture)
      → handed_texts (route_line line c).1
        ≡ handed_texts c ++ banner_texts (piece_of (route_line line c).0 line ∷ [])
  unfolding route_stdout_line
  route_line-handed line c = elim (Bool-cases (has_prefix line flush_sentinel)) [
    | inl y ↦
        let id = trim_space (trim_prefix line flush_sentinel) in
        let w = flush_waiter-handed id c in
        rw (route_stdout_line, y, w.0, y) (w.1 ∙ sym (append-nil (handed_texts c)))
    | inr n ↦
        let b = route_banner plain match_banner (plain line) (match_banner (plain line)) c in
        let h = route_banner-handed (plain line) (match_banner (plain line)) c in
        elim (Bool-cases b.0) [
          | inl y ↦ rw (route_stdout_line, n, y) (h ∙ rw (y, n) refl)
          | inr z ↦ rw (route_stdout_line, n, z) (h ∙ rw z refl)
        ]
  ]

  -- Every text that was handed is accounted for by the pieces.
  abbrev pub IsAccounted : PumpState Capture → Type 0
  IsAccounted p = handed_texts p.routes ≡ banner_texts p.pieces

  forward-IsAccounted :
      (p : PumpState Capture) (s t : String) (returned : Bool)
      → IsAccounted p
      → IsAccounted
          (record p { partial = t; pieces = p.pieces ++ forwarded s ∷ []; returned = returned })
  forward-IsAccounted p s t returned h =
      h ∙ sym (banner_texts-append p.pieces (forwarded s ∷ []) ∙ append-nil (banner_texts p.pieces))

  whole_line-IsAccounted :
      (line : String) (p : PumpState Capture)
      → IsAccounted p
      → IsAccounted (whole_line route_line line p)
  unfolding whole_line
  whole_line-IsAccounted line p h =
      route_line-handed line p.routes
      ∙ ap (λ ts. ts ++ banner_texts (piece_of (route_line line p.routes).0 line ∷ [])) h
      ∙ sym (banner_texts-append p.pieces _)

  take_text-IsAccounted :
      (chunk : String) (p : PumpState Capture)
      → IsAccounted p
      → IsAccounted (take_text route_line chunk p)
  unfolding take_text
  take_text-IsAccounted chunk p h = elim (Bool-cases (chunk == "")) [
    | inl e ↦ rw (take_text, e) h
    | inr e ↦ elim (Bool-cases (ends_line chunk)) [
      | inl l ↦ rw (take_text, e, l) (whole_line-IsAccounted (append p.partial chunk) p h)
      | inr l ↦ elim (Bool-cases (maybe_banner (append p.partial chunk))) [
        | inl m ↦ rw (take_text, e, l, m) h
        | inr m ↦
            rw (take_text, e, l, m) (forward-IsAccounted p (append p.partial chunk) "" p.returned h)
      ]
    ]
  ]

  flush_partial-IsAccounted :
      (p : PumpState Capture) → IsAccounted p → IsAccounted (flush_partial route_line p)
  unfolding flush_partial
  flush_partial-IsAccounted p h = elim (Bool-cases (p.partial == "")) [
    | inl e ↦ rw (flush_partial, e) h
    | inr e ↦ rw (flush_partial, e) (forward-IsAccounted p p.partial "" true h)
  ]

  pump_stdout-IsAccounted :
      (chunks : List Chunk) (p : PumpState Capture)
      → IsAccounted p
      → IsAccounted (pump_stdout route_line chunks p)
  unfolding pump_stdout
  pump_stdout-IsAccounted [] p h = h
  pump_stdout-IsAccounted (read s ∷ more) p h =
      pump_stdout-IsAccounted more (take_text route_line s p) (take_text-IsAccounted s p h)
  pump_stdout-IsAccounted (last s ∷ more) p h =
      flush_partial-IsAccounted (take_text route_line s p) (take_text-IsAccounted s p h)

  -- With the program's routing: the texts that the pump has written to the original output, the
  -- lines that it has consumed, and what it still holds are together, byte for byte and in the
  -- order of the reads, what it held before and what the reads gave since. And of the lines that it
  -- has consumed, exactly those that do not begin with the sentinel of a flush were handed to
  -- operations, in order, each as its text without colours and with a newline. That is from a state
  -- in which the latter holds, as it does at the start.
  pub pump_stdout-accounts :
      (chunks : List Chunk) (p : PumpState Capture)
      → IsAccounted p
      → let q = pump_stdout route_line chunks p in
        (held_text route_line q ≡ append (held_text route_line p) (chunks_text chunks))
        × IsAccounted q
  pump_stdout-accounts chunks p h =
      (pump_stdout-conserves route_line chunks p, pump_stdout-IsAccounted chunks p h)
