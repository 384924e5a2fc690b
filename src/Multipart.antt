-- ===== src/Multipart.antt =====
-- src/server/FastCgiServer.cpp, `parseMultipartFormData`, and the file of src/server/HttpContext.h.
pub mod Search
pub mod Progress
mod Tests
use fileagent_server.Base.{
  ℕ, zero, suc, ◌+◌, ◌-◌, Bool, true, false, ◌&&◌, List, [], ◌∷◌, ◌++◌, Option, none, some, ltb,
  leb, ◌==◌, if◌then◌else◌, length, is_empty, take, drop,
}
use fileagent_server.Base.Bytes.{Bytes, codes, bytes_eq}

pub record MultipartFile : Type 0 where
  pub filename : Bytes
  pub content_type : Bytes
  pub content : Bytes

abbrev pub crlf : Bytes
crlf = 13 ∷ 10 ∷ []

abbrev pub starts_with : Bytes → Bytes → Bool
starts_with [] s = true
starts_with (c ∷ p) [] = false
starts_with (c ∷ p) (d ∷ s) = c == d && starts_with p s

-- `std::string::find`, from the position on; the third argument is the text from `i` on.
unfoldable pub find_in : Bytes → ℕ → Bytes → Option ℕ
find_in needle i [] = if is_empty needle then some i else none
find_in needle i (c ∷ s) =
    let later = find_in needle (suc i) s in if starts_with needle (c ∷ s) then some i else later

unfoldable pub find_from : Bytes → ℕ → Bytes → Option ℕ
find_from needle pos s = if ltb (length s) pos then none else find_in needle pos (drop pos s)

-- The text between two positions, and from a position on.
abbrev pub between : ℕ → ℕ → Bytes → Bytes
between start end s = take (end - start) (drop start s)

-- `if (part_content.size() >= 2 && ... == "\r\n") part_content.resize(part_content.size() - 2);`
unfoldable pub strip_crlf : Bytes → Bytes
strip_crlf s =
    if leb 2 (length s) && bytes_eq (drop (length s - 2) s) crlf then take (length s - 2) s else s

-- The text from a position to the first `needle` after it; empty where there is none.
abbrev until : Bytes → ℕ → Bytes → Option ℕ → Bytes
until needle start s none = []
until needle start s (some end) = between start end s

unfoldable pub filename_of : Bytes → Bytes
filename_of headers = elim (find_from (codes "filename=\"") 0 headers) [
  | none ↦ []
  | some p ↦ until (b'"' ∷ []) (p + 10) headers (find_from (b'"' ∷ []) (p + 10) headers)
]

-- `while (ct_pos < part_headers.size() && part_headers[ct_pos] == ' ') ct_pos++;`
unfoldable pub skip_blanks : ℕ → Bytes → ℕ
skip_blanks pos [] = pos
skip_blanks pos (c ∷ s) = let later = skip_blanks (suc pos) s in if c == 32 then later else pos

unfoldable pub content_type_of : Bytes → Bytes
content_type_of headers = elim (find_from (codes "Content-Type:") 0 headers) [
  | none ↦ []
  | some p ↦
      let start = skip_blanks (p + 13) (drop (p + 13) headers) in
      until crlf start headers (find_from crlf start headers)
]

-- One part; `none` where it has no end of its headers.
unfoldable pub file_of : Bytes → Option MultipartFile
file_of part = elim (find_from (crlf ++ crlf) 0 part) [
  | none ↦ none
  | some header_end ↦
      let headers = take header_end part in
      some record {
        filename = filename_of headers;
        content_type = content_type_of headers;
        content = strip_crlf (drop (header_end + 4) part);
      }
]

-- The end of the part that begins at `start`.
unfoldable pub end_of : Bytes → Bytes → ℕ → ℕ
end_of delim body start = elim (find_from (crlf ++ delim) start body) [
  | some end ↦ end
  | none ↦ elim (find_from (delim ++ codes "--") start body) [ some end ↦ end | none ↦ length body ]
]

-- Where the next part begins, if the loop goes on: after the line of the delimiter.
unfoldable pub part_start : Bytes → Bytes → ℕ → Option ℕ
part_start delim body pos = elim (find_from delim pos body) [
  | none ↦ none
  | some start ↦
      let line : Option ℕ = elim (find_from crlf start body) [
        | none ↦ none
        | some eol ↦ some (eol + 2)
      ] in
      if bytes_eq (take (length delim + 2) (drop start body)) (delim ++ codes "--")
      then none
      else line
]

abbrev pub and_then : Option MultipartFile → List MultipartFile → List MultipartFile
and_then none files = files
and_then (some f) files = f ∷ files

abbrev and_files : Option MultipartFile → Option (List MultipartFile) → Option (List MultipartFile)
and_files f none = none
and_files f (some files) = some (and_then f files)

-- The loop; `none` only if the fuel does not suffice.
unfoldable pub parts_from : ℕ → Bytes → Bytes → ℕ → Option (List MultipartFile)
parts_from zero delim body pos = none
parts_from (suc fuel) delim body pos = elim (part_start delim body pos) [
  | none ↦ some []
  | some start ↦
      let end = end_of delim body start in
      and_files (file_of (between start end body)) (parts_from fuel delim body end)
]

unfoldable pub parse_multipart_form_data : Bytes → Bytes → Option (List MultipartFile)
parse_multipart_form_data body boundary =
    parts_from (suc (length body)) (codes "--" ++ boundary) body 0
