-- ===== src/Qq/Split.antt =====
-- qq_notifications.py: what `split_qq_text` keeps of a text.
use auto_x.Prelude.{
  ℕ, zero, suc, ◌+◌, ◌≤◌, ◌<◌, ◌≡◌, refl, sym, ap, ◌∙◌, inl, inr, Bool, true, false, not, some,
  List, [], ◌∷◌, ◌++◌, append-nil, append_assoc, arith, ltb, Bool-cases, length, drop,
  length-append, length-take-le, take-append-drop, length-drop, All, where_true, All-where_true,
}
use auto_x.Qq.{
  Text, is_empty, append_unless_empty, splitlines, onto_first, ends_line, cut, split_paragraph,
  split_paragraphs, split_qq_text,
}

-- `"".join(chunks)`.
abbrev pub concat : List Text → Text
concat [] = []
concat (chunk ∷ chunks) = chunk ++ concat chunks

concat-append : (xs ys : List Text) → concat (xs ++ ys) ≡ concat xs ++ concat ys
concat-append [] ys = refl
concat-append (x ∷ xs) ys = rw (concat-append xs ys) (sym (append_assoc x (concat xs) (concat ys)))

concat-onto_first : (c : ℕ) (lines : List Text) → concat (onto_first c lines) ≡ c ∷ concat lines
concat-onto_first c [] = refl
concat-onto_first c (line ∷ lines) = refl

concat-splitlines : (text : Text) → concat (splitlines text) ≡ text
unfolding splitlines
concat-splitlines [] = refl
concat-splitlines (c ∷ text) = elim (Bool-cases (ends_line c text)) [
  | inl e ↦ rw (e, concat-splitlines text) refl
  | inr e ↦ rw (e, concat-onto_first c (splitlines text), concat-splitlines text) refl
]

concat-cut : (fuel n : ℕ) (p : Text) → concat (cut fuel n p).0 ++ (cut fuel n p).1 ≡ p
unfolding cut
concat-cut zero n p = refl
concat-cut (suc fuel) n p = elim (Bool-cases (ltb n (length p))) [
  | inl e ↦ rw (e, append_assoc, concat-cut fuel n (drop n p)) (take-append-drop n p)
  | inr e ↦ rw e refl
]

cut-short : (fuel n : ℕ) (p : Text) → ltb n (length p) ≡ false → cut fuel n p ≡ ([], p)
unfolding cut
cut-short zero n p h = refl
cut-short (suc fuel) n p h = rw h refl

concat-append_unless_empty :
    (chunks : List Text) (current : Text)
    → concat (append_unless_empty chunks current) ≡ concat chunks ++ current
concat-append_unless_empty chunks [] = sym (append-nil (concat chunks))
concat-append_unless_empty chunks (c ∷ current) = simp (concat-append, append-nil)

concat-split_paragraph :
    (n : ℕ) (chunks : List Text) (current p : Text)
    → concat (split_paragraph n chunks current p).0 ++ (split_paragraph n chunks current p).1
      ≡ concat chunks ++ current ++ p
unfolding split_paragraph
concat-split_paragraph n chunks [] p = simp (concat-append, append_assoc, concat-cut (length p) n p)
concat-split_paragraph n chunks (c ∷ current) p =
    elim (Bool-cases (ltb n (length (c ∷ current) + length p))) [
      | inl e ↦ rw e (simp (concat-append, append_assoc, concat-cut (length p) n p))
      | inr e ↦
          rw (e, cut-short (length p) n p (ground arith))
            (simp append-nil (sym (append_assoc (concat chunks) (c ∷ current) p)))
    ]

concat-split_paragraphs :
    (n : ℕ) (chunks : List Text) (current : Text) (ps : List Text)
    → concat (split_paragraphs n chunks current ps) ≡ concat chunks ++ (current ++ concat ps)
unfolding split_paragraphs
concat-split_paragraphs n chunks current [] =
    rw (append-nil current) (concat-append_unless_empty chunks current)
concat-split_paragraphs n chunks current (p ∷ ps) =
    let next = split_paragraph n chunks current p in
    concat-split_paragraphs n next.0 next.1 ps
    ∙ simp (← append_assoc) (ap (λ x. x ++ concat ps) (concat-split_paragraph n chunks current p))

-- Every chunk has at most `n` characters, the unfinished one included.
abbrev Fits : ℕ → List Text × Text → Type 0
Fits n s = All (λ chunk. length chunk ≤ n) s.0 × (length s.1 ≤ n)

All-append :
    (n : ℕ) (xs ys : List Text)
    → All (λ chunk. length chunk ≤ n) xs
    → All (λ chunk. length chunk ≤ n) ys
    → All (λ chunk. length chunk ≤ n) (xs ++ ys)
All-append n [] ys h k = k
All-append n (x ∷ xs) ys h k = (h.0, All-append n xs ys h.1 k)

-- With as much fuel as the paragraph has characters, the loop ends.
cut-Fits : (fuel n : ℕ) (p : Text) → length p ≤ fuel → 0 < n → Fits n (cut fuel n p)
unfolding cut
cut-Fits zero n p h k = (tt, omega arith)
cut-Fits (suc fuel) n p h k = elim (Bool-cases (ltb n (length p))) [
  | inl e ↦ rw e (
      let rest = cut-Fits fuel n (drop n p) (ground (arith, length-drop n p)) k in
      ((length-take-le n p, rest.0), rest.1))
  | inr e ↦ rw e (tt, ground arith)
]

split_paragraph-Fits :
    (n : ℕ) (chunks : List Text) (current p : Text)
    → 0 < n
    → Fits n (chunks, current)
    → Fits n (split_paragraph n chunks current p)
unfolding split_paragraph
split_paragraph-Fits n chunks [] p k h =
    let pieces = cut-Fits (length p) n p (omega arith) k in
    (All-append n chunks (cut (length p) n p).0 h.0 pieces.0, pieces.1)
split_paragraph-Fits n chunks (c ∷ current) p k h =
    elim (Bool-cases (ltb n (length (c ∷ current) + length p))) [
      | inl e ↦ rw e (
          let pieces = cut-Fits (length p) n p (omega arith) k in
          (
            All-append n (chunks ++ (c ∷ current) ∷ []) (cut (length p) n p).0
                (All-append n chunks ((c ∷ current) ∷ []) h.0 (h.1, tt)) pieces.0,
            pieces.1,
          ))
      | inr e ↦
          rw (e, cut-short (length p) n p (ground arith))
            (All-append n chunks [] h.0 tt, ground (arith, length-append (c ∷ current) p))
    ]

split_paragraphs-Fits :
    (n : ℕ) (chunks : List Text) (current : Text) (ps : List Text)
    → 0 < n
    → Fits n (chunks, current)
    → All (λ chunk. length chunk ≤ n) (split_paragraphs n chunks current ps)
unfolding split_paragraphs
split_paragraphs-Fits n chunks [] [] k h = h.0
split_paragraphs-Fits n chunks (c ∷ current) [] k h =
    All-append n chunks ((c ∷ current) ∷ []) h.0 (h.1, tt)
split_paragraphs-Fits n chunks current (p ∷ ps) k h =
    let next = split_paragraph n chunks current p in
    split_paragraphs-Fits n next.0 next.1 ps k (split_paragraph-Fits n chunks current p k h)

abbrev pub non_empty : Text → Bool
non_empty chunk = not (is_empty chunk)

concat-where_true : (chunks : List Text) → concat (where_true non_empty chunks) ≡ concat chunks
concat-where_true [] = refl
concat-where_true ([] ∷ chunks) = concat-where_true chunks
concat-where_true ((c ∷ chunk) ∷ chunks) = rw (concat-where_true chunks) refl

-- What a chunk sent to QQ is: not empty, and of at most `n` characters.
abbrev pub IsMessage : ℕ → Text → Type 0
IsMessage n chunk = (length chunk ≤ n) × (non_empty chunk ≡ true)

-- A limit of at least one character: the text is split into messages, none empty and none longer
-- than the limit, and joined again they are the text, whatever lines it has.
pub split_qq_text_whole :
    (text : Text) (max_chars : ℕ)
    → 0 < max_chars
    → (chunks : List Text) × (split_qq_text text max_chars ≡ some chunks)
      × (concat chunks ≡ text)
      × All (IsMessage max_chars) chunks
unfolding split_qq_text
split_qq_text_whole text n k =
    let all = split_paragraphs n [] [] (splitlines text) in
    (
      where_true non_empty all,
      ground arith,
      concat-where_true all
          ∙ concat-split_paragraphs n [] [] (splitlines text)
          ∙ concat-splitlines text,
      All-where_true non_empty (λ chunk. length chunk ≤ n) all
          (split_paragraphs-Fits n [] [] (splitlines text) k (tt, omega arith)),
    )
