-- ===== src/Routes/Uploads.antt =====
-- src/main.cpp: which handler takes the requests for chunks.
use fileagent_server.Base.{
  ◌≡◌, ◌≢◌, refl, sym, subst, ◌∙◌, ◌++◌, take, drop, All-map, List, [], ◌∷◌, some, none, false, All,
  Bool-cases, inl, inr,
}
use fileagent_server.Base.Bytes.{Bytes, codes, bytes_eq, bytes_eq_iff, bytes_key}
use fileagent_server.Base.Assoc.{insert}
use fileagent_server.FastCgiServer.{
  Fields, Route, register_handler, segments_of, non_empty, pieces, is_param, param_name,
  match_segments, find_route,
}
use fileagent_server.FastCgiServer.Segments.{
  IsSegment, render, segments_of-render, segments_of-IsSegment,
}
use fileagent_server.FastCgiServer.Matching.{match_by, match_path-match_by, find_route-first}
use fileagent_server.Routes.{Handler, chunk_upload, routes}

ne→bytes_eq : (s t : Bytes) → s ≢ t → bytes_eq s t ≡ false
ne→bytes_eq s t h = elim (Bool-cases (bytes_eq s t)) [
  | inl e ↦ absurd (h ((bytes_eq_iff s t).0 e))
  | inr e ↦ e
]

abbrev pub chunk_segments : Bytes → Bytes → List Bytes
chunk_segments upload chunk = codes "api" ∷ codes "files" ∷ codes "upload" ∷ upload ∷ chunk ∷ []

abbrev pub chunk_fields : Bytes → Bytes → Fields
chunk_fields upload chunk = (codes "uploadId", upload) ∷ (codes "chunkIndex", chunk) ∷ []

fixed-IsSegment : All IsSegment (codes "api" ∷ codes "files" ∷ codes "upload" ∷ [])
unfolding segments_of pieces non_empty
fixed-IsSegment = segments_of-IsSegment (codes "/api/files/upload")

chunk_segments-IsSegment :
    (upload chunk : Bytes)
    → IsSegment upload
    → IsSegment chunk
    → All IsSegment (chunk_segments upload chunk)
chunk_segments-IsSegment upload chunk hu hc =
    (fixed-IsSegment.0, (fixed-IsSegment.1.0, (fixed-IsSegment.1.1.0, (hu, (hc, tt)))))

abbrev by_chunk : Route Handler
by_chunk = record {
  method = codes "POST";
  pattern = codes "/api/files/upload/{uploadId}/{chunkIndex}";
  segments = segments_of (codes "/api/files/upload/{uploadId}/{chunkIndex}");
  handler = chunk_upload;
}

routes-at_chunk : routes ≡ take 8 routes ++ by_chunk ∷ drop 9 routes
unfolding routes register_handler
routes-at_chunk = refl

misses_before :
    (upload chunk : Bytes)
    → bytes_eq (codes "complete") chunk ≡ false
    → All (λ r. match_by (codes "POST") (chunk_segments upload chunk) r ≡ none) (take 8 routes)
unfolding routes register_handler match_segments segments_of pieces non_empty is_param
misses_before upload chunk n =
    (refl, (refl, (refl, (refl, (refl, (refl, (rw n refl, (refl, tt))))))))

takes_chunk :
    (upload chunk : Bytes)
    → match_by (codes "POST") (chunk_segments upload chunk) by_chunk
      ≡ some (chunk_fields upload chunk)
unfolding match_segments segments_of pieces non_empty is_param param_name insert
takes_chunk upload chunk = refl

-- A POST for a chunk goes to the upload of chunks, with its upload and index as parameters, unless
-- the index is spelled "complete".
pub find_route-chunk_path :
    (upload chunk : Bytes)
    → IsSegment upload
    → IsSegment chunk
    → codes "complete" ≢ chunk
    → find_route (codes "POST") (render (chunk_segments upload chunk)) routes
      ≡ some (chunk_upload, chunk_fields upload chunk)
find_route-chunk_path upload chunk hu hc n =
    let path = render (chunk_segments upload chunk) in
    let segs : segments_of path ≡ chunk_segments upload chunk =
      segments_of-render (chunk_segments upload chunk)
        (chunk_segments-IsSegment upload chunk hu hc) in
    subst (λ rs. find_route (codes "POST") path rs ≡ some (chunk_upload, chunk_fields upload chunk))
      (sym routes-at_chunk)
      (find_route-first (codes "POST") path (take 8 routes) (drop 9 routes) by_chunk
        (chunk_fields upload chunk)
        (All-map
          (λ r n. match_path-match_by (codes "POST") path (chunk_segments upload chunk) r segs ∙ n)
          (take 8 routes) (misses_before upload chunk (ne→bytes_eq (codes "complete") chunk n)))
        (match_path-match_by (codes "POST") path (chunk_segments upload chunk) by_chunk segs
          ∙ takes_chunk upload chunk))
