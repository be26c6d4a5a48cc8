-- ===== src/Stdout/Forwarding.antt =====
-- engine/stdout.go: what becomes of the bytes that the pump reads.
use Prim.Native.String.{◌++◌ as append}
use text.Mathlib.TextLemmas.{append-nil, nil-append, append_assoc}
use pulumi_engine.Prelude.{
  String, Bool, true, false, ◌==◌, ◌≡◌, refl, sym, ◌∙◌, ap, List, [], ◌∷◌, ◌++◌, if◌then◌else◌,
  Bool-cases, inl, inr, eq_iff, map, All, All-append,
}
use pulumi_engine.Stdout.{
  Piece, forwarded, routed, Chunk, read, last, PumpState, maybe_banner, ends_line, whole_line,
  take_text, flush_partial, pump_stdout,
}

abbrev pub piece_text : Piece → String
piece_text (forwarded s) = s
piece_text (routed s) = s

-- The texts of the pieces, one after the other.
abbrev pub pieces_text : List Piece → String
pieces_text [] = ""
pieces_text (p ∷ ps) = append (piece_text p) (pieces_text ps)

-- What the reads gave up to the one with an error, which is the last.
abbrev pub chunks_text : List Chunk → String
chunks_text [] = ""
chunks_text (read s ∷ more) = append s (chunks_text more)
chunks_text (last s ∷ more) = s

-- A piece that is a line with its end.
abbrev pub IsLine : Piece → Type 0
IsLine p = ends_line (piece_text p) ≡ true

pieces_text-append :
    (ps qs : List Piece) → pieces_text (ps ++ qs) ≡ append (pieces_text ps) (pieces_text qs)
pieces_text-append [] qs = sym (nil-append (pieces_text qs))
pieces_text-append (p ∷ ps) qs =
    ap (append (piece_text p)) (pieces_text-append ps qs)
    ∙ sym (append_assoc (piece_text p) (pieces_text ps) (pieces_text qs))

pieces_text-snoc :
    (ps : List Piece) (p : Piece)
    → pieces_text (ps ++ p ∷ []) ≡ append (pieces_text ps) (piece_text p)
pieces_text-snoc ps p =
    pieces_text-append ps (p ∷ []) ∙ ap (append (pieces_text ps)) (append-nil (piece_text p))

module _ {R : Type 0} (route : String → R → Bool × R) where
  -- All the text that the pump has: what it passed on, and what it holds.
  abbrev pub held_text : PumpState R → String
  held_text p = append (pieces_text p.pieces) p.partial

  piece_text_either :
      (consumed : Bool) (line : String)
      → piece_text (if consumed then routed line else forwarded line) ≡ line
  piece_text_either true line = refl
  piece_text_either false line = refl

  whole_line-text :
      (line : String) (p : PumpState R)
      → held_text (whole_line route line p) ≡ append (pieces_text p.pieces) line
  unfolding whole_line
  whole_line-text line p =
      append-nil _
      ∙ pieces_text-snoc p.pieces _
      ∙ ap (append (pieces_text p.pieces)) (piece_text_either (route line p.routes).0 line)

  take_text-text :
      (chunk : String) (p : PumpState R)
      → held_text (take_text route chunk p) ≡ append (held_text p) chunk
  unfolding take_text
  take_text-text chunk p =
      let together = sym (append_assoc (pieces_text p.pieces) p.partial chunk) in
      elim (Bool-cases (chunk == "")) [
        | inl empty ↦
            let nothing : chunk ≡ "" = (eq_iff chunk "").0 empty in
            rw (take_text, empty)
              (sym (ap (append (held_text p)) nothing ∙ append-nil (held_text p)))
        | inr some_text ↦ elim (Bool-cases (ends_line chunk)) [
          | inl line ↦
              rw (take_text, some_text, line)
                (whole_line-text (append p.partial chunk) p ∙ together)
          | inr part ↦ elim (Bool-cases (maybe_banner (append p.partial chunk))) [
            | inl kept ↦ rw (take_text, some_text, part, kept) together
            | inr out ↦
                rw (take_text, some_text, part, out)
                  (append-nil _ ∙ pieces_text-snoc p.pieces _ ∙ together)
          ]
        ]
      ]

  flush_partial-text :
      (p : PumpState R)
      → (pieces_text (flush_partial route p).pieces ≡ held_text p)
        × ((flush_partial route p).partial ≡ "")
        × ((flush_partial route p).returned ≡ true)
  unfolding flush_partial
  flush_partial-text p = elim (Bool-cases (p.partial == "")) [
    | inl empty ↦
        let nothing : p.partial ≡ "" = (eq_iff p.partial "").0 empty in
        rw (flush_partial, empty)
          (
            sym (ap (append (pieces_text p.pieces)) nothing ∙ append-nil (pieces_text p.pieces)),
            nothing,
            refl,
          )
    | inr some_text ↦ rw (flush_partial, some_text) (pieces_text-snoc p.pieces _, refl, refl)
  ]

  -- Whatever the pump has passed on and still holds is, byte for byte and in order, what it held
  -- before and what the reads gave since, whatever the routing.
  pub pump_stdout-conserves :
      (chunks : List Chunk) (p : PumpState R)
      → held_text (pump_stdout route chunks p) ≡ append (held_text p) (chunks_text chunks)
  unfolding pump_stdout
  pump_stdout-conserves [] p = sym (append-nil (held_text p))
  pump_stdout-conserves (read s ∷ more) p =
      pump_stdout-conserves more (take_text route s p)
      ∙ ap (λ t. append t (chunks_text more)) (take_text-text s p)
      ∙ append_assoc (held_text p) s (chunks_text more)
  pump_stdout-conserves (last s ∷ more) p =
      let (text, none_held, over) = flush_partial-text (take_text route s p) in
      rw (none_held) (append-nil _) ∙ text ∙ take_text-text s p

  -- When the read with an error comes, the pump returns, it holds nothing back, and what it passed
  -- on is all that it held and read.
  pub pump_stdout-drains :
      (reads : List String) (s : String) (p : PumpState R)
      → let chunks = map read reads ++ last s ∷ [] in
        ((pump_stdout route chunks p).returned ≡ true)
        × ((pump_stdout route chunks p).partial ≡ "")
        × (pieces_text (pump_stdout route chunks p).pieces
            ≡ append (held_text p) (chunks_text chunks))
  unfolding pump_stdout
  pump_stdout-drains [] s p =
      let (text, none_held, over) = flush_partial-text (take_text route s p) in
      (over, none_held, text ∙ take_text-text s p)
  pump_stdout-drains (r ∷ reads) s p =
      let (over, none_held, text) = pump_stdout-drains reads s (take_text route r p) in
      (
        over,
        none_held,
        text
            ∙ ap (λ t. append t (chunks_text (map read reads ++ last s ∷ []))) (take_text-text r p)
            ∙ append_assoc (held_text p) r (chunks_text (map read reads ++ last s ∷ [])),
      )

  take_text-IsLine :
      (chunk : String) (p : PumpState R)
      → ends_line chunk ≡ true
      → p.partial ≡ ""
      → All IsLine p.pieces
      → ((take_text route chunk p).partial ≡ "") × All IsLine (take_text route chunk p).pieces
  unfolding take_text whole_line
  take_text-IsLine chunk p line empty lines = elim (Bool-cases (chunk == "")) [
    | inl nothing ↦ rw (take_text, nothing) (empty, lines)
    | inr some_text ↦
        let whole : append p.partial chunk ≡ chunk =
          ap (λ t. append t chunk) empty ∙ nil-append chunk in
        rw (take_text, some_text, line, whole_line)
          (
            refl,
            All-append IsLine p.pieces _ lines
                (ap ends_line (piece_text_either _ (append p.partial chunk) ∙ whole) ∙ line, tt),
          )
  ]

  -- While the pipe is open, a read ends with a newline, as `bufio.Reader.ReadString` promises of a
  -- read without an error: then the pump passes on whole lines only, and holds nothing between the
  -- reads, so the branch for a partial line is not taken.
  pub pump_stdout-whole_lines :
      (reads : List String) (p : PumpState R)
      → All (λ r. ends_line r ≡ true) reads
      → p.partial ≡ ""
      → All IsLine p.pieces
      → ((pump_stdout route (map read reads) p).partial ≡ "")
        × All IsLine (pump_stdout route (map read reads) p).pieces
  unfolding pump_stdout
  pump_stdout-whole_lines [] p ends empty lines = (empty, lines)
  pump_stdout-whole_lines (r ∷ reads) p ends empty lines =
      let (still, more) = take_text-IsLine r p ends.0 empty lines in
      pump_stdout-whole_lines reads (take_text route r p) ends.1 still more
