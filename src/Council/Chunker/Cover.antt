-- ===== src/Council/Chunker/Cover.antt =====
-- The chunks of `chunkByLines` cover the source: nothing is lost, repeated or moved, and the line
-- ranges are those of the texts.
use cordyceps.Common.{
  ltb, ltb→lt, Bool-cases, length, take, drop, length-append, take-append-drop, length-take, ℕ, ◌+◌,
  ◌-◌, ◌≤◌, ◌<◌, ◌≡◌, refl, sym, ap, ◌∙◌, ◌≢◌, inl, inr, false, List, [], ◌∷◌, ◌++◌, append-nil,
  append_assoc, arith,
}
use cordyceps.Common.Text.{Text, newline, split, join}
use cordyceps.Council.Chunker.{
  Piece, Scan, start, cut_at_blank, flush, cut_all, make_room, take_line, scan, close, pieces,
}

-- The chunk of the lines `ls` that stand behind `before` other lines.
abbrev pub piece_of : ℕ → List Text → Piece
piece_of before ls = record {
  text = join newline ls;
  start_line = before + 1;
  end_line = before + 1 + length ls - 1;
}

-- `ps` are the chunks of consecutive groups of lines, which together are `lines`.
pub data Covers : List Piece → List Text → Type 0 where
  empty : Covers [] []
  push :
      {ps qs : List Piece} {lines all : List Text} (group : List Text)
      → Covers ps lines
      → group ≢ []
      → qs ≡ ps ++ piece_of (length lines) group ∷ []
      → all ≡ lines ++ group
      → Covers qs all

-- What holds in front of each round of the loop.
record Inv (seen : List Text) (s : Scan) : Type 0 where
  done : List Text
  covers : Covers s.chunks done
  split : seen ≡ done ++ s.current
  line : s.start_line ≡ length done + 1
  blank : s.last_blank ≤ length s.current

nonempty : (ls : List Text) → 0 < length ls → ls ≢ []
nonempty [] h = absurd (omega arith)
nonempty (l ∷ ls) h = λ e. cc

module _ (seen : List Text) (s : Scan) (inv : Inv seen s) where
  flush-Covers : 0 < length s.current → Covers (flush s) seen
  unfolding flush
  flush-Covers h = push s.current inv.covers (nonempty s.current h) (rw inv.line) inv.split

  cut_all-Inv : 0 < length s.current → Inv seen (cut_all (length seen) s)
  unfolding cut_all
  cut_all-Inv h = record {
    done = seen;
    covers = flush-Covers h;
    split = sym (append-nil seen);
    line = refl;
    blank = omega arith;
  }

  cut_at_blank-Inv : 0 < s.last_blank → Inv seen (cut_at_blank s)
  unfolding cut_at_blank
  cut_at_blank-Inv h =
      let head = take s.last_blank s.current in
      let exact : length head ≡ s.last_blank =
        omega (arith, length-take {0} s.last_blank s.current, inv.blank) in
      record {
        done = inv.done ++ head;
        covers =
            push head inv.covers (nonempty head (omega arith)) (ground (arith, inv.line, exact))
              refl;
        split =
            inv.split
            ∙ ap (λ l. inv.done ++ l) (sym (take-append-drop s.last_blank s.current))
            ∙ sym (append_assoc inv.done head (drop s.last_blank s.current));
        line = omega (arith, length-append {0} inv.done head, exact, inv.line);
        blank = omega arith;
      }

  make_room-Inv :
      (max_bytes : ℕ) (line : Text) → Inv seen (make_room max_bytes (length seen) line s)
  unfolding make_room
  make_room-Inv max_bytes line = ground (arith, cut_all-Inv, cut_at_blank-Inv, inv)

  take_line-Inv : (line : Text) → Inv (seen ++ line ∷ []) (take_line line s)
  unfolding take_line
  take_line-Inv line = record {
    done = inv.done;
    covers = inv.covers;
    split = ap (λ l. l ++ line ∷ []) inv.split ∙ append_assoc inv.done s.current (line ∷ []);
    line = inv.line;
    blank = ground (arith, length-append {0} s.current (line ∷ []), inv.blank);
  }

scan-Inv :
    (max_bytes : ℕ) (seen lines : List Text) (s : Scan)
    → Inv seen s
    → Inv (seen ++ lines) (scan max_bytes (length seen) lines s)
unfolding scan
scan-Inv max_bytes seen [] s inv = rw (append-nil seen) inv
scan-Inv max_bytes seen (line ∷ lines) s inv =
    let roomy = make_room-Inv seen s inv max_bytes line in
    let next = take_line-Inv seen (make_room max_bytes (length seen) line s) roomy line in
    let step =
      scan-Inv max_bytes (seen ++ line ∷ []) lines
        (take_line line (make_room max_bytes (length seen) line s)) next in
    rw (append_assoc seen (line ∷ []) lines, length-append {0} seen (line ∷ [])) at step

start-Inv : Inv [] start
start-Inv = record { done = []; covers = empty; split = refl; line = refl; blank = omega arith }

empty_of_test : (ls : List Text) → ltb 0 (length ls) ≡ false → ls ≡ []
empty_of_test [] h = refl
empty_of_test (l ∷ ls) h = ground arith

close-Covers : (lines : List Text) (s : Scan) → Inv lines s → Covers (close s) lines
unfolding close
close-Covers lines s inv = elim (Bool-cases (ltb 0 (length s.current))) [
  | inl e ↦ rw e (flush-Covers lines s inv (ltb→lt 0 (length s.current) e))
  | inr e ↦ rw e (
      rw (inv.split ∙ ap (λ l. inv.done ++ l) (empty_of_test s.current e) ∙ append-nil inv.done)
        inv.covers)
]

-- The pieces of the long path cover the lines of the source.
pub pieces-Covers :
    (source : Text) (max_bytes : ℕ) → Covers (pieces source max_bytes) (split newline source)
unfolding pieces
pieces-Covers source max_bytes =
    let lines = split newline source in
    close-Covers lines (scan max_bytes 0 lines start) (scan-Inv max_bytes [] lines start start-Inv)
