-- ===== src/Multipart/Progress.antt =====
-- src/server/FastCgiServer.cpp: the loop of `parseMultipartFormData` ends.
use fileagent_server.Base.{
  ℕ, zero, suc, ◌+◌, ◌≤◌, ◌<◌, ◌≡◌, refl, arith, List, [], ◌++◌, some, length, Option-cases, inl,
  inr,
}
use fileagent_server.Base.Bytes.{Bytes, codes}
use fileagent_server.Multipart.{
  MultipartFile, and_then, crlf, between, find_from, file_of, end_of, part_start, parts_from,
  parse_multipart_form_data,
}
use fileagent_server.Multipart.Search.{find_from-bounds}

-- A part begins behind the position, and within the body.
part_start-bounds :
    (delim body : Bytes) (pos start : ℕ)
    → part_start delim body pos ≡ some start
    → (pos + 2 ≤ start) × (start ≤ length body)
unfolding part_start
part_start-bounds delim body pos start h = elim (Option-cases (find_from delim pos body)) [
  | inl n ↦ absurd (ground (arith, n, h))
  | inr (d, e) ↦ elim (Option-cases (find_from crlf d body)) [
    | inl n ↦ absurd (ground (arith, n, e, h))
    | inr (l, f) ↦
        let at = find_from-bounds delim pos d body e in
        let eol = find_from-bounds crlf d l body f in ground (arith, at, eol, e, f, h)
  ]
]

end_of-bounds :
    (delim body : Bytes) (start : ℕ)
    → start ≤ length body
    → (start ≤ end_of delim body start) × (end_of delim body start ≤ length body)
unfolding end_of
end_of-bounds delim body start h = elim (Option-cases (find_from (crlf ++ delim) start body)) [
  | inr (i, e) ↦ let at = find_from-bounds (crlf ++ delim) start i body e in ground (arith, at, e)
  | inl n ↦ elim (Option-cases (find_from (delim ++ codes "--") start body)) [
    | inr (i, e) ↦
        let at = find_from-bounds (delim ++ codes "--") start i body e in ground (arith, at, n, e)
    | inl m ↦ ground (arith, n, m, h)
  ]
]

parts_from-ends :
    (fuel : ℕ) (delim body : Bytes) (pos : ℕ)
    → pos ≤ length body
    → length body < fuel + pos
    → (files : List MultipartFile) × (parts_from fuel delim body pos ≡ some files)
unfolding parts_from
parts_from-ends zero delim body pos a b = absurd (omega (arith, a, b))
parts_from-ends (suc fuel) delim body pos a b = elim (Option-cases (part_start delim body pos)) [
  | inl n ↦ ([], rw (n, parts_from) refl)
  | inr (start, e) ↦
      let (later, inside) = part_start-bounds delim body pos start e in
      let (on, within) = end_of-bounds delim body start inside in
      let end = end_of delim body start in
      let (files, rest) =
        parts_from-ends fuel delim body end within (omega (arith, later, on, b)) in
      (and_then (file_of (between start end body)) files, rw (e, parts_from, rest) refl)
]

-- For every body and boundary the loop ends: it makes at most one round for each byte, and one more.
pub parse_multipart_form_data-ends :
    (body boundary : Bytes)
    → (files : List MultipartFile) × (parse_multipart_form_data body boundary ≡ some files)
unfolding parse_multipart_form_data
parse_multipart_form_data-ends body boundary =
    parts_from-ends (suc (length body)) (codes "--" ++ boundary) body 0 (omega arith) (omega arith)
