-- ===== src/Council/Chunker/Size.antt =====
-- How large the chunks of `chunkByLines` are. A cut at a blank line keeps the lines behind it, and
-- the next line is added without a second test, so a chunk may pass the limit by that line.
use cordyceps.Common.{
  ltb, leb, ltb→lt, leb→le, Bool-cases, length, take, drop, length-append, All, All-append, ℕ, zero,
  suc, ◌+◌, ◌-◌, ◌≤◌, ◌<◌, ◌≡◌, refl, ◌⊎◌, inl, inr, false, ◌&&◌, List, [], ◌∷◌, ◌++◌, arith,
}
use cordyceps.Common.Text.{Text, newline, split, join}
use cordyceps.Council.Chunker.{
  Piece, Scan, start, line_bytes, cut_at_blank, flush, cut_all, make_room, take_line, scan, close,
  pieces, chunk_by_lines,
}
use cordyceps.Council.Chunker.Laws.{piece_list, pieces-number}

line_bytes-append : (xs ys : List Text) → line_bytes (xs ++ ys) ≡ line_bytes xs + line_bytes ys
line_bytes-append [] ys = omega arith
line_bytes-append (x ∷ xs) ys = omega (arith, line_bytes-append xs ys)

line_bytes-drop-le : (n : ℕ) (xs : List Text) → line_bytes (drop n xs) ≤ line_bytes xs
line_bytes-drop-le zero xs = omega arith
line_bytes-drop-le (suc n) [] = omega arith
line_bytes-drop-le (suc n) (x ∷ xs) = omega (arith, line_bytes-drop-le n xs)

line_bytes-take-le : (n : ℕ) (xs : List Text) → line_bytes (take n xs) ≤ line_bytes xs
line_bytes-take-le zero xs = omega arith
line_bytes-take-le (suc n) [] = omega arith
line_bytes-take-le (suc n) (x ∷ xs) = omega (arith, line_bytes-take-le n xs)

line_bytes-drop-length : (xs : List Text) → line_bytes (drop (length xs) xs) ≡ 0
line_bytes-drop-length [] = refl
line_bytes-drop-length (x ∷ xs) = line_bytes-drop-length xs

-- The newlines between the lines are counted, and one more.
length-join-le : (ls : List Text) → length (join newline ls) ≤ line_bytes ls - 1
length-join-le [] = omega arith
length-join-le (l ∷ []) = omega arith
length-join-le (l ∷ k ∷ ls) =
    omega (arith, length-append {0} l (newline ∷ join newline (k ∷ ls)), length-join-le (k ∷ ls))

-- A chunk of at most `bound` code units.
abbrev pub FitsIn : ℕ → Piece → Type 0
FitsIn bound p = length p.text ≤ bound

module _ (max_bytes longest : ℕ) where
  -- In front of each round `current` fits, or no cut inside it is possible.
  record Inv (s : Scan) : Type 0 where
    chunks : All (FitsIn (max_bytes + longest)) s.chunks
    bytes : s.bytes ≡ line_bytes s.current
    within : s.bytes ≤ max_bytes + longest + 1
    blank : s.last_blank ≤ length s.current
    over : (s.bytes ≤ max_bytes) ⊎ (s.last_blank ≡ 0) ⊎ (s.last_blank ≡ length s.current)

  -- Behind `make_room` the next line brings `current` to the bound at most.
  record Roomy (line : ℕ) (s : Scan) : Type 0 where
    chunks : All (FitsIn (max_bytes + longest)) s.chunks
    bytes : s.bytes ≡ line_bytes s.current
    room : s.bytes ≤ max_bytes
    blank : s.last_blank ≤ length s.current
    over : (s.bytes + line ≤ max_bytes) ⊎ (s.last_blank ≡ 0)

  module _ (s : Scan) (inv : Inv s) where
    flush-All : All (FitsIn (max_bytes + longest)) (flush s)
    unfolding flush
    flush-All =
        All-append (FitsIn (max_bytes + longest)) s.chunks _ inv.chunks
          (omega (arith, length-join-le s.current, inv.bytes, inv.within), tt)

    cut_all-Roomy : (i line : ℕ) → Roomy line (cut_all i s)
    unfolding cut_all
    cut_all-Roomy i line = record {
      chunks = flush-All;
      bytes = refl;
      room = omega arith;
      blank = omega arith;
      over = inr refl;
    }

    -- What is kept behind a blank line fits.
    tail_room : 0 < s.last_blank → line_bytes (drop s.last_blank s.current) ≤ max_bytes
    tail_room h = elim inv.over [
      | inl fits ↦ omega (arith, line_bytes-drop-le s.last_blank s.current, inv.bytes)
      | inr (inl e) ↦ absurd (omega arith)
      | inr (inr e) ↦ rw e (omega (arith, line_bytes-drop-length s.current))
    ]

    cut_at_blank-Roomy : (line : ℕ) → 0 < s.last_blank → Roomy line (cut_at_blank s)
    unfolding cut_at_blank
    cut_at_blank-Roomy line h = record {
      chunks = All-append (FitsIn (max_bytes + longest)) s.chunks _ inv.chunks (
        omega (
          arith,
          length-join-le (take s.last_blank s.current),
          line_bytes-take-le s.last_blank s.current,
          inv.bytes,
          inv.within,
        ),
        tt,
      );
      bytes = refl;
      room = tail_room h;
      blank = omega arith;
      over = inr refl;
    }

    not_full_over :
        (line : Text)
        → (ltb max_bytes (s.bytes + (length line + 1)) && ltb 0 (length s.current)) ≡ false
        → (s.bytes + (length line + 1) ≤ max_bytes) ⊎ (s.last_blank ≡ 0)
    not_full_over line e = ground (arith, inv.blank)

    empty_bytes : (ls : List Text) → length ls ≡ 0 → line_bytes ls ≡ 0
    empty_bytes [] e = refl
    empty_bytes (l ∷ ls) e = absurd (omega arith)

    not_full_room :
        (line : Text)
        → (ltb max_bytes (s.bytes + (length line + 1)) && ltb 0 (length s.current)) ≡ false
        → s.bytes ≤ max_bytes
    not_full_room line e = ground (arith, inv.bytes, empty_bytes s.current)

    make_room-Roomy :
        (i : ℕ) (line : Text)
        → length line ≤ longest
        → Roomy (length line + 1) (make_room max_bytes i line s)
    unfolding make_room
    make_room-Roomy i line short =
        elim (Bool-cases
          (ltb max_bytes (s.bytes + (length line + 1)) && ltb 0 (length s.current))) [
            | inl full ↦ elim (Bool-cases (ltb 0 s.last_blank)) [
              | inl e ↦
                  rw (full, e) (cut_at_blank-Roomy (length line + 1) (ltb→lt 0 s.last_blank e))
              | inr e ↦ rw (full, e) (cut_all-Roomy i (length line + 1))
            ]
            | inr e ↦ rw e (record {
              chunks = inv.chunks;
              bytes = inv.bytes;
              room = not_full_room line e;
              blank = inv.blank;
              over = not_full_over line e;
            })
          ]

  take_line-Inv :
      (s : Scan) (line : Text)
      → length line ≤ longest
      → Roomy (length line + 1) s
      → Inv (take_line line s)
  unfolding take_line
  take_line-Inv s line short r = record {
    chunks = r.chunks;
    bytes = omega (arith, r.bytes, line_bytes-append s.current (line ∷ []));
    within = omega (arith, r.room);
    blank = ground (arith, length-append {0} s.current (line ∷ []), r.blank);
    over = ground (arith, length-append {0} s.current (line ∷ []), r.over);
  }

  scan-Inv :
      (i : ℕ) (lines : List Text) (s : Scan)
      → All (λ l. length l ≤ longest) lines
      → Inv s
      → Inv (scan max_bytes i lines s)
  unfolding scan
  scan-Inv i [] s h inv = inv
  scan-Inv i (line ∷ lines) s h inv =
      let roomy = make_room-Roomy s inv i line h.0 in
      scan-Inv (i + 1) lines (take_line line (make_room max_bytes i line s)) h.1
        (take_line-Inv (make_room max_bytes i line s) line h.0 roomy)

  start-Inv : Inv start
  start-Inv = record {
    chunks = tt;
    bytes = refl;
    within = omega arith;
    blank = omega arith;
    over = inl (omega arith);
  }

  close-All : (s : Scan) → Inv s → All (FitsIn (max_bytes + longest)) (close s)
  unfolding close
  close-All s inv = elim (Bool-cases (ltb 0 (length s.current))) [
    | inl e ↦ rw e (flush-All s inv)
    | inr e ↦ rw e inv.chunks
  ]

-- If no line of the source has more than `longest` code units, no chunk has more than
-- `max_bytes + longest`.
pub chunk_by_lines_size :
    (source : Text) (max_bytes longest : ℕ)
    → All (λ l. length l ≤ longest) (split newline source)
    → All (FitsIn (max_bytes + longest)) (piece_list (chunk_by_lines source max_bytes))
unfolding chunk_by_lines pieces
chunk_by_lines_size source max_bytes longest h = elim (Bool-cases (leb (length source) max_bytes)) [
  | inl e ↦ rw e (omega (arith, leb→le (length source) max_bytes e), tt)
  | inr e ↦ rw e (
      rw pieces-number (
        close-All max_bytes longest _ (
          scan-Inv max_bytes longest 0 (split newline source) start h
            (start-Inv max_bytes longest))))
]
