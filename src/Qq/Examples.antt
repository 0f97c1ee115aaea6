-- ===== src/Qq/Examples.antt =====
-- Two lines that are cut at three characters, and messages that are put together.
use auto_x.Prelude.{◌≡◌, refl, some, List, [], ◌∷◌, arith, All}
use auto_x.Qq.{
  Text, split_paragraphs, split_paragraph, splitlines, cut, split_qq_text, chunk_qq_messages,
}
use auto_x.Qq.Split.{concat, IsMessage, split_qq_text_whole}
use auto_x.Qq.Chunks.{join, FitsOne, chunk_qq_messages_whole}

abbrev two_lines : Text
two_lines = 65 ∷ 66 ∷ 10 ∷ 67 ∷ 68 ∷ 69 ∷ 70 ∷ 13 ∷ 10 ∷ 71 ∷ []

split_qq_text_whole_example :
    (chunks : List Text) × (split_qq_text two_lines 3 ≡ some chunks)
    × (concat chunks ≡ two_lines)
    × All (IsMessage 3) chunks
split_qq_text_whole_example = split_qq_text_whole two_lines 3 (omega arith)

abbrev messages : List Text
messages = (65 ∷ 66 ∷ []) ∷ (67 ∷ []) ∷ (68 ∷ 69 ∷ 70 ∷ 71 ∷ []) ∷ []

chunk_qq_messages_whole_example :
    (join (chunk_qq_messages messages 5) ≡ join messages)
    × All (FitsOne 5) (chunk_qq_messages messages 5)
chunk_qq_messages_whole_example =
    chunk_qq_messages_whole messages 5
      ((omega arith, refl), ((omega arith, refl), ((omega arith, refl), tt)))

cut_text :
    split_qq_text two_lines 3
    ≡ some ((65 ∷ 66 ∷ 10 ∷ []) ∷ (67 ∷ 68 ∷ 69 ∷ []) ∷ (70 ∷ 13 ∷ 10 ∷ []) ∷ (71 ∷ []) ∷ [])
unfolding split_qq_text split_paragraphs split_paragraph splitlines cut
cut_text = refl
