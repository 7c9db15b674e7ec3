-- ===== src/Council/Chunker/Tests.antt =====
-- Runs of the chunker, and the theorems about it at concrete sources.
use cordyceps.Common.{length, All, ◌+◌, ◌≡◌, refl, [], ◌∷◌, arith}
use cordyceps.Common.Text.{Text, text, newline, trim, split, join}
use cordyceps.Council.Chunker.{
  chunk_by_lines, make_room, cut_at_blank, flush, cut_all, take_line, scan, close, number, pieces,
}
use cordyceps.Council.Chunker.Laws.{
  texts, piece_list, Tiles, IsSlice, chunk_by_lines_lossless, chunk_by_lines_ranges,
}
use cordyceps.Council.Chunker.Size.{FitsIn, chunk_by_lines_size}

running : Unit {0}
unfolding chunk_by_lines make_room cut_at_blank cut_all flush take_line scan close number pieces
    trim split
running = tt

abbrev sample : Text
sample = text "ab\n\ncdef\ngh"

-- The cut stands behind the blank line, although the line before it had room.
cut_behind_blank : texts (piece_list (chunk_by_lines sample 9)) ≡ text "ab\n" ∷ text "cdef\ngh" ∷ []
unfolding running
cut_behind_blank = refl

cut_anywhere :
    texts (piece_list (chunk_by_lines (text "abc\ndef\nghi") 8)) ≡ text "abc\ndef" ∷ text "ghi" ∷ []
unfolding running
cut_anywhere = refl

-- What stands behind the blank line and the next line pass the limit of 9 together.
cut_over_limit :
    texts (piece_list (chunk_by_lines (text "\nabcdefg\nhijklmn\nx") 9))
    ≡ text "" ∷ text "abcdefg\nhijklmn" ∷ text "x" ∷ []
unfolding running
cut_over_limit = refl

chunk_by_lines_lossless_example :
    join newline (texts (piece_list (chunk_by_lines sample 9))) ≡ sample
chunk_by_lines_lossless_example = chunk_by_lines_lossless sample 9

chunk_by_lines_ranges_example :
    Tiles 1 (piece_list (chunk_by_lines sample 9)) (length (split newline sample) + 1)
    × All (IsSlice (split newline sample)) (piece_list (chunk_by_lines sample 9))
chunk_by_lines_ranges_example = chunk_by_lines_ranges sample 9

chunk_by_lines_size_example : All (FitsIn 13) (piece_list (chunk_by_lines sample 9))
unfolding split
chunk_by_lines_size_example = chunk_by_lines_size sample 9 4 (omega arith)
