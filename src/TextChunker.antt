-- ===== src/TextChunker.antt =====
-- src/vector/TextChunker.cpp and TextChunker.h. `size_t` is kept modulo 2^64, so `end - overlap` may
-- wrap as it does in the source. The two counters of chunks are `int`s, as `int_of` gives them.
-- `none` stands for a loop that has used up its fuel.
pub mod Window
pub mod BySize
pub mod Numbers
pub mod Stitch
pub mod Merge
pub mod Paragraphs
pub mod ByParagraph
pub mod Content
mod Tests
use fileagent_server.Base.{
  ℕ, zero, suc, ◌+◌, ◌-◌, ◌/◌, ◌%◌, ◌^◌, min, Bool, true, false, not, ◌&&◌, List, [], ◌∷◌, ◌++◌,
  Option, none, some, ltb, leb, ◌==◌, if◌then◌else◌, length, take, drop, is_empty,
}
use fileagent_server.Base.Bytes.{Bytes}
use fileagent_server.Base.Int.{ℤ, int_of}

-- `TextChunker::Chunk`
pub record Chunk : Type 0 where
  pub content : Bytes
  pub index : ℤ
  pub file_id : ℤ
  pub filename : Bytes

abbrev pub newline : ℕ
newline = 10

abbrev pub word : ℕ
word = 2 ^ 64

abbrev pub add_word : ℕ → ℕ → ℕ
add_word a b = (a + b) % word

abbrev pub sub_word : ℕ → ℕ → ℕ
sub_word a b = (a + word - b) % word

-- `text.rfind(c, last)` on the part of the text that begins at `i`.
unfoldable pub rfind_from : ℕ → ℕ → ℕ → Bytes → Option ℕ
rfind_from c last i [] = none
rfind_from c last i (b ∷ s) = elim (rfind_from c last (suc i) s) [
  | some p ↦ some p
  | none ↦ if b == c && leb i last then some i else none
]

-- The end of the window that begins at `start`.
unfoldable pub chunk_end : Bytes → ℕ → ℕ → ℕ
chunk_end text chunk_size start =
    let end = min (add_word start chunk_size) (length text) in
    if ltb end (length text)
    then elim (rfind_from newline end 0 text) [
      | none ↦ end
      | some p ↦ if ltb (add_word start (chunk_size / 2)) p then p + 1 else end
    ]
    else end

-- The start of the next window.
unfoldable pub next_start : ℕ → ℕ → ℕ → ℕ
next_start chunk_size overlap end =
    let start = sub_word end overlap in
    if leb end (add_word start (chunk_size / 4)) then sub_word end (chunk_size / 4) else start

-- The two parameters after the checks at the head of `chunkBySize`.
abbrev pub used_size : ℕ → ℕ
used_size chunk_size = if chunk_size == 0 then 1000 else chunk_size

abbrev pub used_overlap : ℕ → ℕ → ℕ
used_overlap size overlap = if leb size overlap then size / 4 else overlap

module _ (text source_file : Bytes) (file_id : ℤ) where
  -- `while (start < text.size())`
  unfoldable pub size_loop : ℕ → ℕ → ℕ → ℕ → ℕ → Option (List Chunk)
  size_loop zero chunk_size overlap start idx = none
  size_loop (suc fuel) chunk_size overlap start idx =
      let end = chunk_end text chunk_size start in
      let c : Chunk = record {
        content = take (sub_word end start) (drop start text);
        index = int_of idx;
        file_id = file_id;
        filename = source_file;
      } in
      let rest = size_loop fuel chunk_size overlap (next_start chunk_size overlap end) (suc idx) in
      let more : Option (List Chunk) = elim rest [ none ↦ none | some cs ↦ some (c ∷ cs) ] in
      if ltb start (length text)
      then (if leb (length text) end then some (c ∷ []) else more)
      else some []

  -- `chunkBySize`
  unfoldable pub chunk_by_size : ℕ → ℕ → Option (List Chunk)
  chunk_by_size chunk_size overlap =
      let size = used_size chunk_size in
      let lap = used_overlap size overlap in
      if is_empty text
      then some []
      else if leb (length text) size
      then some (
          record { content = text; index = int_of 0; file_id = file_id; filename = source_file }
          ∷ [])
      else size_loop (suc (length text)) size lap 0 0

-- `std::getline` until it fails: the lines, of which the last may lack its newline.
unfoldable pub lines_from : Bytes → Bytes → List Bytes
lines_from line [] = if is_empty line then [] else line ∷ []
lines_from line (b ∷ s) = elim (b == newline) [
  | true ↦ line ∷ lines_from [] s
  | false ↦ lines_from (line ++ b ∷ []) s
]

-- The loop that closes a paragraph at an empty line.
unfoldable pub paragraphs_from : Bytes → List Bytes → List Bytes
paragraphs_from para [] = if is_empty para then [] else para ∷ []
paragraphs_from para (line ∷ ls) = elim (is_empty line && not (is_empty para)) [
  | true ↦ para ∷ paragraphs_from [] ls
  | false ↦ paragraphs_from (para ++ (line ++ newline ∷ [])) ls
]

unfoldable pub paragraphs : Bytes → List Bytes
unfolding lines_from paragraphs_from
paragraphs text = paragraphs_from [] (lines_from [] text)

-- `sc.index = idx++` over the chunks of an oversized paragraph.
unfoldable pub renumber : ℕ → List Chunk → List Chunk
renumber idx [] = []
renumber idx (c ∷ cs) = record c { index = int_of idx } ∷ renumber (suc idx) cs

-- The limit after the check at the head of `chunkByParagraph`.
abbrev pub used_limit : ℕ → ℕ
used_limit max_chunk_size = if max_chunk_size == 0 then 2000 else max_chunk_size

-- The test for closing the current chunk before a paragraph.
unfoldable pub flushes : ℕ → Bytes → Bytes → Bool
flushes limit cur para = ltb limit (length cur + length para) && not (is_empty cur)

module _ (source_file : Bytes) (file_id : ℤ) where
  abbrev pub make_chunk : Bytes → ℕ → Chunk
  make_chunk content idx = record {
    content = content;
    index = int_of idx;
    file_id = file_id;
    filename = source_file;
  }

  -- The loop over the paragraphs, and the last chunk after it.
  unfoldable pub merge : ℕ → List Bytes → ℕ → Bytes → Option (List Chunk)
  merge limit [] idx cur = if is_empty cur then some [] else some (make_chunk cur idx ∷ [])
  merge limit (para ∷ ps) idx cur =
      let full = flushes limit cur para in
      let out : List Chunk = if full then make_chunk cur idx ∷ [] else [] in
      let idx' = if full then suc idx else idx in
      let cur' = if full then [] else cur in
      let split : Option (List Chunk) =
        elim (chunk_by_size para source_file file_id limit (limit / 5)) [
          | none ↦ none
          | some subs ↦ elim (merge limit ps (idx' + length subs) cur') [
            | none ↦ none
            | some rest ↦ some (out ++ (renumber idx' subs ++ rest))
          ]
        ] in
      let joined : Option (List Chunk) = elim (merge limit ps idx' (cur' ++ para)) [
        | none ↦ none
        | some rest ↦ some (out ++ rest)
      ] in
      if ltb limit (length para) then split else joined

  -- `chunkByParagraph`
  unfoldable pub chunk_by_paragraph : Bytes → ℕ → Option (List Chunk)
  chunk_by_paragraph text max_chunk_size =
      let limit = used_limit max_chunk_size in
      if is_empty text
      then some []
      else if leb (length text) limit
      then some (make_chunk text 0 ∷ [])
      else merge limit (paragraphs text) 0 []
