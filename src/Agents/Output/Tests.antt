-- ===== src/Agents/Output/Tests.antt =====
-- The output of a process at concrete chunks.
use cordyceps.Common.{◌≡◌, refl, List, [], ◌∷◌}
use cordyceps.Common.Text.{Text}
use cordyceps.Agents.Output.{jsonl, feed, output, output_from, on_data, on_exit, drain, cut_line}
use cordyceps.Agents.Output.Lines.{output-concat, whole, concat}

abbrev chunks : List Text
chunks = (65 ∷ 66 ∷ []) ∷ (67 ∷ 10 ∷ 10 ∷ 68 ∷ []) ∷ (69 ∷ []) ∷ []

output_chunks : output jsonl chunks ≡ feed (65 ∷ 66 ∷ 67 ∷ []) ∷ feed (68 ∷ 69 ∷ []) ∷ feed [] ∷ []
unfolding output output_from on_data on_exit drain cut_line
output_chunks = refl

output-concat_example : output jsonl chunks ≡ whole jsonl (concat chunks)
output-concat_example = output-concat jsonl chunks
