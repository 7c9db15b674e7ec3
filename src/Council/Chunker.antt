-- ===== src/Council/Chunker.antt =====
-- `chunkByLines` of src/plugins/builtin/council/index.ts: a source is cut into chunks of whole
-- lines, at a blank line where the chunk has one. Lengths count UTF-16 code units, as `.length`.
pub mod Cover
pub mod Laws
pub mod Size
mod Tests
use cordyceps.Common.{
  ℕ, suc, ◌+◌, ◌-◌, List, [], ◌∷◌, ◌++◌, ◌&&◌, length, take, drop, leb, ltb, if◌then◌else◌,
}
use cordyceps.Common.Text.{Text, newline, is_nil, trim, split, join}

-- What the loop pushes to `chunks`.
pub record Piece : Type 0 where
  pub text : Text
  pub start_line : ℕ
  pub end_line : ℕ

pub record Chunk : Type 0 where
  pub piece : Piece
  pub open piece use *
  pub index : ℕ
  pub total : ℕ

-- The variables of the loop. `last_blank` is 0 for the source's -1: the code only tests `> 0`.
pub record Scan : Type 0 where
  pub chunks : List Piece
  pub current : List Text
  pub bytes : ℕ
  pub start_line : ℕ
  pub last_blank : ℕ

abbrev pub start : Scan
start = record { chunks = []; current = []; bytes = 0; start_line = 1; last_blank = 0 }

-- `reduce((n, l) => n + l.length + 1, 0)`
abbrev pub line_bytes : List Text → ℕ
line_bytes [] = 0
line_bytes (l ∷ ls) = length l + 1 + line_bytes ls

-- Cuts behind the most recent blank line and keeps the rest.
pub cut_at_blank : Scan → Scan
cut_at_blank s =
    let head = take s.last_blank s.current in
    let tail = drop s.last_blank s.current in
    record {
      chunks =
          s.chunks
          ++ record {
            text = join newline head;
            start_line = s.start_line;
            end_line = s.start_line + s.last_blank - 1;
          }
            ∷ [];
      current = tail;
      bytes = line_bytes tail;
      start_line = s.start_line + s.last_blank;
      last_blank = 0;
    }

-- The chunks, with all of `current` pushed.
pub flush : Scan → List Piece
flush s =
    s.chunks
    ++ record {
      text = join newline s.current;
      start_line = s.start_line;
      end_line = s.start_line + length s.current - 1;
    }
      ∷ []

-- Cuts in front of the line with index `i`.
pub cut_all : ℕ → Scan → Scan
cut_all i s = record {
  chunks = flush s;
  current = [];
  bytes = 0;
  start_line = i + 1;
  last_blank = 0;
}

-- The first half of the loop's body: make room for the line.
pub make_room : ℕ → ℕ → Text → Scan → Scan
make_room max_bytes i line s =
    if ltb max_bytes (s.bytes + (length line + 1)) && ltb 0 (length s.current)
    then (if ltb 0 s.last_blank then cut_at_blank s else cut_all i s)
    else s

-- The second half: take the line.
pub take_line : Text → Scan → Scan
take_line line s = record s {
  current = s.current ++ line ∷ [];
  bytes = s.bytes + (length line + 1);
  last_blank = if is_nil (trim line) then length s.current + 1 else s.last_blank;
}

pub scan : ℕ → ℕ → List Text → Scan → Scan
scan max_bytes i [] s = s
scan max_bytes i (line ∷ lines) s =
    scan max_bytes (i + 1) lines (take_line line (make_room max_bytes i line s))

-- The rest behind the loop.
pub close : Scan → List Piece
close s = if ltb 0 (length s.current) then flush s else s.chunks

pub number : ℕ → ℕ → List Piece → List Chunk
number i total [] = []
number i total (p ∷ ps) = record { piece = p; index = i; total = total } ∷ number (i + 1) total ps

pub pieces : Text → ℕ → List Piece
pieces source max_bytes = close (scan max_bytes 0 (split newline source) start)

pub chunk_by_lines : Text → ℕ → List Chunk
chunk_by_lines source max_bytes =
    if leb (length source) max_bytes
    then record {
      piece = record { text = source; start_line = 1; end_line = length (split newline source) };
      index = 0;
      total = 1;
    }
      ∷ []
    else number 0 (length (pieces source max_bytes)) (pieces source max_bytes)
