-- ===== src/Qq/Chunks.antt =====
-- qq_notifications.py: what `chunk_qq_messages` makes of a list of messages.
use auto_x.Prelude.{
  ℕ, ◌≤◌, ◌≡◌, refl, ap, ◌∙◌, inl, inr, false, List, [], ◌∷◌, ◌++◌, append_assoc, arith, ltb,
  Bool-cases, length, All, All-snoc,
}
use auto_x.Qq.{Text, is_empty, blank_line, chunk_messages, chunk_qq_messages}

-- `"\n\n".join(messages)`.
abbrev pub join : List Text → Text
join [] = []
join (message ∷ []) = message
join (message ∷ next ∷ messages) = message ++ blank_line ++ join (next ∷ messages)

abbrev pub FitsOne : ℕ → Text → Type 0
FitsOne n message = (length message ≤ n) × (is_empty message ≡ false)

join-joined :
    (xs : List Text) (y z : Text) (zs : List Text)
    → join (xs ++ (y ++ blank_line ++ z) ∷ zs) ≡ join (xs ++ y ∷ z ∷ zs)
join-joined [] y z [] = refl
join-joined [] y z (w ∷ zs) = simp append_assoc
join-joined (x ∷ []) y z zs = ap (λ t. x ++ blank_line ++ t) (join-joined [] y z zs)
join-joined (x ∷ next ∷ xs) y z zs = ap (λ t. x ++ blank_line ++ t) (join-joined (next ∷ xs) y z zs)

snoc-append {ℓ} :
    {A : Type ℓ} (xs : List A) (y : A) (ys : List A) → (xs ++ y ∷ []) ++ ys ≡ xs ++ y ∷ ys
snoc-append xs y ys = append_assoc xs (y ∷ []) ys

is_empty-append : (xs ys : Text) → is_empty xs ≡ false → is_empty (xs ++ ys) ≡ false
is_empty-append [] ys h = cc
is_empty-append (x ∷ xs) ys h = refl

chunk_messages-whole :
    (n : ℕ) (chunks : List Text) (current : Text) (messages : List Text)
    → All (FitsOne n) chunks
    → FitsOne n current
    → All (FitsOne n) messages
    → (join (chunk_messages n chunks current messages) ≡ join (chunks ++ current ∷ messages))
      × All (FitsOne n) (chunk_messages n chunks current messages)
unfolding chunk_messages
chunk_messages-whole n chunks current [] h k hs =
    rw k.1 (refl, All-snoc (FitsOne n) chunks current h k)
chunk_messages-whole n chunks current (message ∷ messages) h k hs =
    elim (Bool-cases (ltb n (length (current ++ blank_line ++ message)))) [
      | inl e ↦
          rw (k.1, e)
            (let rest =
                chunk_messages-whole n (chunks ++ current ∷ []) message messages
                  (All-snoc (FitsOne n) chunks current h k) hs.0 hs.1 in
              (rest.0 ∙ ap join (snoc-append chunks current (message ∷ messages)), rest.1))
      | inr e ↦
          rw (k.1, e)
            (let rest =
                chunk_messages-whole n chunks (current ++ blank_line ++ message) messages h
                  (
                    ground arith,
                    is_empty-append (current ++ blank_line) message
                        (is_empty-append current blank_line k.1),
                  )
                  hs.1 in
              (rest.0 ∙ join-joined chunks current message messages, rest.1))
    ]

-- Messages none of which is empty or longer than the limit: joined with blank lines, the chunks
-- are the messages so joined, and no chunk is empty or longer than the limit.
pub chunk_qq_messages_whole :
    (messages : List Text) (max_chars : ℕ)
    → All (FitsOne max_chars) messages
    → (join (chunk_qq_messages messages max_chars) ≡ join messages)
      × All (FitsOne max_chars) (chunk_qq_messages messages max_chars)
unfolding chunk_qq_messages chunk_messages
chunk_qq_messages_whole [] n h = (refl, tt)
chunk_qq_messages_whole (message ∷ messages) n h =
    chunk_messages-whole n [] message messages tt h.0 h.1
