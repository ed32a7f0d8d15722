-- ===== src/Documents/Chunker/Pieces.antt =====
-- What the chunks of a text are: pieces of it, and together all of it but white space.
use chatbot_react_python_nod.Prelude.{
  ℕ, zero, suc, ◌+◌, ◌-◌, ◌≤◌, ◌<◌, ◌≡◌, refl, sym, ap, ◌∙◌, min, true, false, Option, some, List,
  [], ◌∷◌, ltb, length, is_space, Elem, Bool-cases, inl, inr, arith, slice, length-slice, get_elem?,
  get_elem?-slice, get_elem?-all,
}
use chatbot_react_python_nod.Documents.Segments.{find_split_end-between}
use chatbot_react_python_nod.Documents.Pages.{PageSpan, page_for_offset}
use chatbot_react_python_nod.Documents.Chunker.{
  DocumentChunk, Settings, Source, is_blank_piece, end_from, start_after, new_chunk,
}

-- The content of a chunk is the piece of the text from `s` on.
abbrev pub PieceAt : List ℕ → DocumentChunk → ℕ → Type 0
PieceAt text c s = c.content ≡ slice s (s + length c.content) text

-- a chunk with its index: a piece of the text that is not blank, of at most `size` characters, with the
-- page where it begins
abbrev pub IsPiece : ℕ → List PageSpan → List ℕ → ℕ → DocumentChunk → Type 0
IsPiece size spans text index c =
    (c.chunk_index ≡ index)
    × (length c.content ≤ size)
    × (is_blank_piece c.content ≡ false)
    × ((s : ℕ) × PieceAt text c s × (c.page ≡ page_for_offset spans s))

-- chunks with indices in turn
abbrev pub ArePieces : ℕ → List PageSpan → List ℕ → ℕ → List DocumentChunk → Type 0
ArePieces size spans text index [] = Unit
ArePieces size spans text index (c ∷ cs) =
    IsPiece size spans text index c × ArePieces size spans text (suc index) cs

-- the character at `i` is in a chunk
abbrev pub Covered : List ℕ → ℕ → List DocumentChunk → Type 0
Covered text i cs =
    (c : DocumentChunk) × (s : ℕ) × Elem c cs
    × PieceAt text c s
    × (s ≤ i)
    × (i < s + length c.content)

-- every character from `start` on that is no white space is in a chunk
abbrev pub CoversFrom : List ℕ → ℕ → List DocumentChunk → Type 0
CoversFrom text start cs =
    (i x : ℕ) → start ≤ i → get_elem? text i ≡ some x → is_space x ≡ false → Covered text i cs

-- what a run of the loop is to give
abbrev pub Chunks : ℕ → Source → ℕ → ℕ → Option (List DocumentChunk) → Type 0
Chunks size d start index o =
    (cs : List DocumentChunk) × (o ≡ some cs)
    × ArePieces size d.spans d.text index cs
    × CoversFrom d.text start cs

-- a position with a character lies within the text
pub within : (xs : List ℕ) (i x : ℕ) → get_elem? xs i ≡ some x → i < length xs
unfolding get_elem?
within [] i x e = absurd cc
within (y ∷ xs) zero x e = omega arith
within (y ∷ xs) (suc i) x e = omega (arith, within xs i x e)

-- the characters of a blank piece are white space
pub blank-at :
    (s e i x : ℕ) (text : List ℕ)
    → is_blank_piece (slice s e text) ≡ true
    → s ≤ i
    → i < e
    → get_elem? text i ≡ some x
    → is_space x ≡ true
blank-at s e i x text blank h k at_i =
    let same : s + (i - s) ≡ i = omega (arith, h) in
    get_elem?-all is_space (slice s e text) (i - s) x blank
      (get_elem?-slice s e (i - s) text (omega (arith, h, k)) ∙ ap (get_elem? text) same ∙ at_i)

pub end_from-between :
    (settings : Settings) (d : Source) (start : ℕ)
    → 1 ≤ settings.chunk_size
    → start < length d.text
    → (start < end_from settings d start)
      × (end_from settings d start ≤ start + settings.chunk_size)
      × (end_from settings d start ≤ length d.text)
unfolding end_from
end_from-between settings d start pos h =
    let budget = min (start + settings.chunk_size) (length d.text) in
    let ok : start < budget = omega (arith, pos, h) in
    let (low, high) = find_split_end-between d.segments start budget ok in
    elim (Bool-cases (ltb budget (length d.text))) [
      | inl e ↦ rw (end_from, e) (low, omega (arith, high), omega (arith, high))
      | inr e ↦ rw (end_from, e) (ok, omega arith, omega arith)
    ]

pub start_after-between :
    (settings : Settings) (start end : ℕ)
    → start < end
    → (start < start_after settings start end) × (start_after settings start end ≤ end)
unfolding start_after
start_after-between settings start end h = ground (arith, h)

-- the chunk of a piece that is not blank
pub new_chunk-IsPiece :
    (settings : Settings) (d : Source) (start end index : ℕ)
    → start < end
    → end ≤ start + settings.chunk_size
    → end ≤ length d.text
    → is_blank_piece (slice start end d.text) ≡ false
    → IsPiece settings.chunk_size d.spans d.text index (new_chunk d start end index)
new_chunk-IsPiece settings d start end index h k l filled =
    let size = length-slice start end d.text l in
    let whole : start + length (slice start end d.text) ≡ end = omega (arith, size, h) in
    (
      refl,
      omega (arith, size, k),
      filled,
      (start, ap (λ e. slice start e d.text) (sym whole), refl),
    )

-- the characters of a piece are in its chunk
pub piece-Covered :
    (d : Source) (start end index i : ℕ) (cs : List DocumentChunk)
    → start < end
    → end ≤ length d.text
    → start ≤ i
    → i < end
    → Covered d.text i (new_chunk d start end index ∷ cs)
piece-Covered d start end index i cs h l low high =
    let size = length-slice start end d.text l in
    let whole : start + length (slice start end d.text) ≡ end = omega (arith, size, h) in
    (
      new_chunk d start end index,
      start,
      inl refl,
      ap (λ e. slice start e d.text) (sym whole),
      low,
      omega (arith, size, h, high),
    )
