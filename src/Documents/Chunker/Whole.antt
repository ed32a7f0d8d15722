-- ===== src/Documents/Chunker/Whole.antt =====
-- The chunker ends, its chunks are pieces of the text of at most the chunk size, and nothing but white
-- space is left out.
use chatbot_react_python_nod.Prelude.{
  is_empty, ℕ, zero, suc, ◌+◌, ◌-◌, ◌≤◌, ◌<◌, ◌≡◌, refl, ap, max, String, true, false, Option, some,
  List, [], ◌∷◌, leb, ltb, length, Bool-cases, inl, inr, arith, tests, slice,
}
use chatbot_react_python_nod.Json.{Json}
use chatbot_react_python_nod.Documents.Pages.{page_spans}
use chatbot_react_python_nod.Documents.Chunker.Pieces.{
  ArePieces, CoversFrom, Chunks, within, blank-at, end_from-between, start_after-between,
  new_chunk-IsPiece, piece-Covered,
}
use chatbot_react_python_nod.Documents.Chunker.{
  ParsedDocument, DocumentChunk, Settings, Source, is_blank_piece, end_from, start_after, new_chunk,
  before, chunks_from, chunk,
}

module _ (settings : Settings) (d : Source) (pos : 1 ≤ settings.chunk_size) where
  abbrev Goal : ℕ → ℕ → Option (List DocumentChunk) → Type 0
  Goal start index o = Chunks settings.chunk_size d start index o

  -- nothing is left
  done : (start index : ℕ) → length d.text ≤ start → Goal start index (some [])
  done start index h =
      ([], refl, tt, λ i x low at_i letter. absurd (omega (arith, h, low, within d.text i x at_i)))

  blank_tail :
      (start end index : ℕ)
      → is_blank_piece (slice start end d.text) ≡ true
      → length d.text ≤ end
      → Goal start index (some [])
  blank_tail start end index blank h = (
    [],
    refl,
    tt,
    λ i x low at_i letter. absurd (
        let inside = within d.text i x at_i in
        let space = blank-at start end i x d.text blank low (omega (arith, inside, h)) at_i in cc),
  )

  skip :
      (start end index : ℕ) (o : Option (List DocumentChunk))
      → is_blank_piece (slice start end d.text) ≡ true
      → Goal end index o
      → Goal start index o
  skip start end index o blank (cs, same, pieces, covers) = (
    cs,
    same,
    pieces,
    λ i x low at_i letter. elim (Bool-cases (ltb i end)) [
      | inl early ↦
          absurd
            (let space = blank-at start end i x d.text blank low (omega (tests, early)) at_i in cc)
      | inr late ↦ covers i x (omega (tests, late)) at_i letter
    ],
  )

  last :
      (start end index : ℕ)
      → start < end
      → end ≤ start + settings.chunk_size
      → end ≤ length d.text
      → length d.text ≤ end
      → is_blank_piece (slice start end d.text) ≡ false
      → Goal start index (some (new_chunk d start end index ∷ []))
  last start end index h k l whole filled = (
    new_chunk d start end index ∷ [],
    refl,
    (new_chunk-IsPiece settings d start end index h k l filled, tt),
    λ i x low at_i letter.
        piece-Covered d start end index i [] h l low (omega (arith, within d.text i x at_i, whole)),
  )

  more :
      (start end next index : ℕ) (o : Option (List DocumentChunk))
      → start < end
      → end ≤ start + settings.chunk_size
      → end ≤ length d.text
      → next ≤ end
      → is_blank_piece (slice start end d.text) ≡ false
      → Goal next (suc index) o
      → Goal start index (before (new_chunk d start end index) o)
  more start end next index o h k l m filled (cs, same, pieces, covers) = (
    new_chunk d start end index ∷ cs,
    ap (before (new_chunk d start end index)) same,
    (new_chunk-IsPiece settings d start end index h k l filled, pieces),
    λ i x low at_i letter. elim (Bool-cases (ltb i end)) [
      | inl early ↦ piece-Covered d start end index i cs h l low (omega (tests, early))
      | inr late ↦
          let (c, s, there, piece, from, to) = covers i x (omega (tests, late, m)) at_i letter in
          (c, s, inr there, piece, from, to)
    ],
  )

  chunks_from-Chunks :
      (fuel start index : ℕ)
      → length d.text - start < fuel
      → Goal start index (chunks_from fuel settings d start index)
  unfolding chunks_from
  chunks_from-Chunks zero start index h = absurd (omega (arith, h))
  chunks_from-Chunks (suc fuel) start index h = elim (Bool-cases (ltb start (length d.text))) [
    | inr over ↦ rw over (done start index (omega (tests, over)))
    | inl inside ↦
        let end = end_from settings d start in
        let (low, high, bound) = end_from-between settings d start pos (omega (tests, inside)) in
        elim (Bool-cases (is_blank_piece (slice start end d.text))) [
          | inl blank ↦ elim (Bool-cases (leb (length d.text) end)) [
            | inl whole ↦
                rw (inside, blank, whole) (blank_tail start end index blank (omega (tests, whole)))
            | inr part ↦
                let next : end ≡ max (start + 1) end = omega (arith, low) in
                rw (inside, blank, part)
                  (skip start end index (chunks_from fuel settings d (max (start + 1) end) index)
                    blank
                    (rw (← next)
                      (chunks_from-Chunks fuel end index (omega (arith, h, low, bound)))))
          ]
          | inr filled ↦ elim (Bool-cases (leb (length d.text) end)) [
            | inl whole ↦
                rw (inside, filled, whole)
                  (last start end index low high bound (omega (tests, whole)) filled)
            | inr part ↦
                let next = start_after settings start end in
                let (after, not_late) = start_after-between settings start end low in
                rw (inside, filled, part)
                  (more start end next index (chunks_from fuel settings d next (suc index)) low high
                    bound not_late filled
                    (chunks_from-Chunks fuel next (suc index)
                      (omega (arith, h, after, low, bound))))
          ]
        ]
  ]

length-is_empty : (xs : List ℕ) → is_empty xs ≡ true → length xs ≡ 0
length-is_empty [] e = refl
length-is_empty (x ∷ xs) e = absurd cc

module _ (render : Json → String) (settings : Settings) (document : ParsedDocument) where
  -- What the chunks of a document are to be.
  abbrev pub Chunked : Option (List DocumentChunk) → Type 0
  Chunked o =
      (cs : List DocumentChunk) × (o ≡ some cs)
      × ArePieces settings.chunk_size (page_spans document.metadata) document.text 0 cs
      × CoversFrom document.text 0 cs

  -- With a chunk size of at least 1 and any overlap, the chunker ends for every document. Its chunks are
  -- numbered from 0 in turn; each is a piece of the text of at most the chunk size, is not blank, and has
  -- the page of its first character; and every character of the text that is no white space is in a chunk.
  pub chunk_whole : 1 ≤ settings.chunk_size → Chunked (chunk render settings document)
  unfolding chunk
  chunk_whole pos = elim (Bool-cases (is_empty document.text)) [
    | inl empty ↦
        rw (chunk, empty)
          (
            [],
            refl,
            tt,
            λ i x low at_i letter.
                absurd (
                  omega
                    (arith, within document.text i x at_i, length-is_empty document.text empty)),
          )
    | inr filled ↦
        rw (chunk, filled)
          (chunks_from-Chunks settings _ pos (suc (length document.text)) 0 0 (omega arith))
  ]
