-- ===== src/TextChunker/Tests.antt =====
-- Runs of the chunker, and its theorems at concrete texts.
use fileagent_server.Base.{◌≡◌, refl, List, [], ◌∷◌, none, some, arith}
use fileagent_server.Base.Bytes.{Bytes, codes}
use fileagent_server.Base.Int.{pos}
use mathlib.Core.Option
use fileagent_server.TextChunker.{
  Chunk, rfind_from, chunk_end, next_start, size_loop, chunk_by_size, lines_from, paragraphs_from,
  paragraphs, flushes, merge, chunk_by_paragraph,
}
use fileagent_server.TextChunker.BySize.{Tiles}
use fileagent_server.TextChunker.Numbers.{Numbered, chunk_by_size-Numbered}
use fileagent_server.TextChunker.Stitch.{stitch, stitch-chunk_by_size}
use fileagent_server.TextChunker.ByParagraph.{Bounded, chunk_by_paragraph-Good}
use fileagent_server.TextChunker.Paragraphs.{strip, joined}
use fileagent_server.TextChunker.Content.{contents, strip-chunk_by_paragraph}

abbrev alphabet : Bytes
alphabet = codes "abcdefghijklmnopqrst"

abbrev broken : Bytes
broken = codes "abcde\nghijklmnopqrst"

abbrev noted : Bytes
noted = codes "ab\n\n\ncd\nefg\n\nq"

abbrev name : Bytes
name = codes "a.txt"

windows :
    Option.map contents (chunk_by_size alphabet name (pos 1) 8 2)
    ≡ some (codes "abcdefgh" ∷ codes "ghijklmn" ∷ codes "mnopqrst" ∷ [])
unfolding chunk_by_size size_loop chunk_end next_start rfind_from
windows = refl

-- A newline just behind the window is taken into it, so a chunk can have one byte more.
one_byte_more :
    Option.map contents (chunk_by_size (codes "abcdefgh\nij") name (pos 1) 8 0)
    ≡ some (codes "abcdefgh\n" ∷ codes "h\nij" ∷ [])
unfolding chunk_by_size size_loop chunk_end next_start rfind_from
one_byte_more = refl

-- An overlap above half the chunk size: `end - overlap` wraps, and the rest of the text is lost.
rest_lost :
    Option.map contents (chunk_by_size broken name (pos 1) 8 7) ≡ some (codes "abcde\n" ∷ [])
unfolding chunk_by_size size_loop chunk_end next_start rfind_from
rest_lost = refl

-- The same overlap further on: the window does not move, and the loop does not end.
no_progress : chunk_by_size (codes "abcdefghijk\nmnopqrstuv") name (pos 1) 8 7 ≡ none
unfolding chunk_by_size size_loop chunk_end next_start rfind_from
no_progress = refl

paragraph_chunks :
    Option.map contents (chunk_by_paragraph name (pos 1) noted 8)
    ≡ some (codes "ab\n" ∷ codes "\ncd\nefg\n" ∷ codes "q\n" ∷ [])
unfolding chunk_by_paragraph merge paragraphs paragraphs_from lines_from flushes
paragraph_chunks = refl

chunk_by_size-Numbered_example :
    (cs : List Chunk) × (chunk_by_size alphabet name (pos 1) 8 2 ≡ some cs)
    × Tiles alphabet name (pos 1) 9 2 0 0 cs
    × Numbered 0 cs
chunk_by_size-Numbered_example =
    chunk_by_size-Numbered alphabet name (pos 1) 8 2 (λ e. cc) (omega arith) (omega arith)

stitch-chunk_by_size_example :
    (cs : List Chunk) × (chunk_by_size broken name (pos 1) 8 3 ≡ some cs)
    × (stitch 3 cs ≡ broken)
    × Bounded 8 cs
stitch-chunk_by_size_example =
    stitch-chunk_by_size broken name (pos 1) 8 3 (λ e. cc) (omega arith) (omega arith)

chunk_by_paragraph-Good_example :
    (cs : List Chunk) × (chunk_by_paragraph name (pos 1) noted 8 ≡ some cs)
    × Numbered 0 cs
    × Bounded 8 cs
chunk_by_paragraph-Good_example = chunk_by_paragraph-Good noted name (pos 1) 8 (omega arith)

strip-chunk_by_paragraph_example :
    (cs : List Chunk) × (chunk_by_paragraph name (pos 1) noted 8 ≡ some cs)
    × (strip (joined (contents cs)) ≡ strip noted)
unfolding paragraphs paragraphs_from lines_from
strip-chunk_by_paragraph_example = strip-chunk_by_paragraph noted name (pos 1) 8 (omega arith)
