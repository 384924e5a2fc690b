-- ===== src/Multipart/Tests.antt =====
-- Runs of `parseMultipartFormData`, and its theorem at a concrete body.
use fileagent_server.Base.{◌≡◌, refl, List, [], ◌∷◌, ◌++◌, some}
use fileagent_server.Base.Bytes.{Bytes, codes}
use fileagent_server.Multipart.{
  MultipartFile, crlf, find_in, find_from, strip_crlf, filename_of, skip_blanks, content_type_of,
  file_of, end_of, part_start, parts_from, parse_multipart_form_data,
}
use fileagent_server.Multipart.Progress.{parse_multipart_form_data-ends}

-- One file of a body with the boundary "B".
abbrev part : Bytes → Bytes → Bytes
part headers content = codes "--B" ++ crlf ++ headers ++ crlf ++ crlf ++ content ++ crlf

abbrev one_file : Bytes
one_file =
    part
      (codes "Content-Type: text/plain"
        ++ crlf
        ++ codes "Content-Disposition: form-data; filename=\"a.txt\"")
      (codes "text")
    ++ codes "--B--"

abbrev parsed : Bytes → Bytes → Bytes → MultipartFile
parsed filename content_type content = record {
  filename = filename;
  content_type = content_type;
  content = content;
}

one_file_runs :
    parse_multipart_form_data one_file (codes "B")
    ≡ some (parsed (codes "a.txt") (codes "text/plain") (codes "text") ∷ [])
unfolding parse_multipart_form_data parts_from part_start end_of file_of content_type_of skip_blanks
    filename_of strip_crlf find_from find_in
one_file_runs = refl

-- The last line break of a file's own content is lost, and so is a content type in the last header.
line_lost :
    parse_multipart_form_data
      (part
          (codes "filename=\"a\"" ++ crlf ++ codes "Content-Type: text/plain")
          (codes "text" ++ crlf)
        ++ codes "--B--")
      (codes "B")
    ≡ some (parsed (codes "a") [] (codes "text") ∷ [])
unfolding parse_multipart_form_data parts_from part_start end_of file_of content_type_of skip_blanks
    filename_of strip_crlf find_from find_in
line_lost = refl

parse_multipart_form_data-ends_example :
    (files : List MultipartFile) × (parse_multipart_form_data one_file (codes "B") ≡ some files)
parse_multipart_form_data-ends_example = parse_multipart_form_data-ends one_file (codes "B")
