-- ===== src/Qq.antt =====
-- qq_notifications.py: the cutting of texts into QQ messages of at most `max_chars` characters. A
-- text is the list of its code points, which is what Python's `len` and slices count.
use auto_x.Prelude.{
  ℕ, zero, suc, ◌+◌, Bool, true, false, not, ◌&&◌, ◌||◌, Option, none, some, List, [], ◌∷◌, ◌++◌,
  ltb, leb, ◌==◌, if◌then◌else◌, length, take, drop, where_true,
}
pub mod Chunks
pub mod Split
pub mod Deliveries
mod Examples

abbrev pub Text : Type 0
Text = List ℕ

abbrev pub qq_message_max_chars : ℕ
qq_message_max_chars = 2000

abbrev pub is_empty {ℓ} : {A : Type ℓ} → List A → Bool
is_empty [] = true
is_empty (x ∷ xs) = false

-- `if current: chunks.append(current)`.
abbrev pub append_unless_empty : List Text → Text → List Text
append_unless_empty chunks current = if is_empty current then chunks else chunks ++ current ∷ []

-- `"\n\n"`.
abbrev pub blank_line : Text
blank_line = 10 ∷ 10 ∷ []

-- `message if not current else f"{current}\n\n{message}"`.
abbrev pub joined : Text → Text → Text
joined current message = if is_empty current then message else current ++ blank_line ++ message

-- `chunk_qq_messages`: its loop, with the locals `chunks` and `current`, and the function.
unfoldable pub chunk_messages : ℕ → List Text → Text → List Text → List Text
chunk_messages max_chars chunks current [] = append_unless_empty chunks current
chunk_messages max_chars chunks current (message ∷ messages) =
    let candidate = joined current message in
    let full = not (is_empty current) && ltb max_chars (length candidate) in
    chunk_messages max_chars (if full then chunks ++ current ∷ [] else chunks)
      (if full then message else candidate) messages

unfoldable pub chunk_qq_messages : List Text → ℕ → List Text
chunk_qq_messages messages max_chars = chunk_messages max_chars [] [] messages

-- `str.splitlines(keepends=True)`: a line ends after each of Python's line boundaries, with a
-- carriage return and a line feed in a row as one of them.
abbrev pub is_boundary : ℕ → Bool
is_boundary c =
    (leb 10 c && leb c 13) || (leb 28 c && leb c 30) || (c == 133) || (c == 8232) || (c == 8233)

abbrev pub starts_with_feed : Text → Bool
starts_with_feed [] = false
starts_with_feed (c ∷ text) = c == 10

abbrev pub ends_line : ℕ → Text → Bool
ends_line c text = is_boundary c && not ((c == 13) && starts_with_feed text)

abbrev pub onto_first : ℕ → List Text → List Text
onto_first c [] = (c ∷ []) ∷ []
onto_first c (line ∷ lines) = (c ∷ line) ∷ lines

unfoldable pub splitlines : Text → List Text
splitlines [] = []
splitlines (c ∷ text) =
    let lines = splitlines text in if ends_line c text then (c ∷ []) ∷ lines else onto_first c lines

-- `while len(paragraph) > max_chars`: the chunks that the loop appends and the paragraph it leaves.
unfoldable pub cut : ℕ → ℕ → Text → List Text × Text
cut zero max_chars paragraph = ([], paragraph)
cut (suc fuel) max_chars paragraph =
    let rest = cut fuel max_chars (drop max_chars paragraph) in
    if ltb max_chars (length paragraph)
    then (take max_chars paragraph ∷ rest.0, rest.1)
    else ([], paragraph)

-- One round of the loop over the paragraphs, on the locals `chunks` and `current`.
unfoldable pub split_paragraph : ℕ → List Text → Text → Text → List Text × Text
split_paragraph max_chars chunks current paragraph =
    let full = not (is_empty current) && ltb max_chars (length current + length paragraph) in
    let pieces = cut (length paragraph) max_chars paragraph in
    (
      (if full then chunks ++ current ∷ [] else chunks) ++ pieces.0,
      (if full then [] else current) ++ pieces.1,
    )

unfoldable pub split_paragraphs : ℕ → List Text → Text → List Text → List Text
split_paragraphs max_chars chunks current [] = append_unless_empty chunks current
split_paragraphs max_chars chunks current (paragraph ∷ paragraphs) =
    let next = split_paragraph max_chars chunks current paragraph in
    split_paragraphs max_chars next.0 next.1 paragraphs

-- `split_qq_text`, with `none` for its ValueError.
unfoldable pub split_qq_text : Text → ℕ → Option (List Text)
split_qq_text text max_chars =
    if ltb max_chars 1
    then none
    else some (
        where_true (λ chunk. not (is_empty chunk))
          (split_paragraphs max_chars [] [] (splitlines text)))
