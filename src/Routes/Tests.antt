-- ===== src/Routes/Tests.antt =====
-- The theorems on the table of routes, at concrete requests.
use fileagent_server.Base.{◌≡◌, ◌≢◌, refl, [], ◌∷◌, some, All}
use fileagent_server.Base.Bytes.{codes, bytes_key}
use fileagent_server.Base.Assoc.{insert}
use fileagent_server.FastCgiServer.{
  Fields, register_handler, segments_of, non_empty, pieces, is_param, param_name, match_segments,
  match_path, find_route,
}
use fileagent_server.FastCgiServer.Segments.{IsSegment, render, segments_of-IsSegment}
use fileagent_server.Routes.{share_download, share_ranking, chunk_upload, routes}
use fileagent_server.Routes.Shares.{find_route-routes}
use fileagent_server.Routes.Uploads.{chunk_segments, chunk_fields, find_route-chunk_path}

abbrev token_field : Fields
token_field = (codes "token", codes "ranking") ∷ []

ranking_runs :
    find_route (codes "GET") (codes "/api/shares/ranking") routes
    ≡ some (share_download, token_field)
unfolding find_route match_path match_segments segments_of non_empty pieces is_param param_name
    register_handler insert routes
ranking_runs = refl

find_route-routes_example : share_download ≢ share_ranking
find_route-routes_example =
    find_route-routes (codes "GET") (codes "/api/shares/ranking") share_download token_field
      ranking_runs

ids : All IsSegment (codes "u1" ∷ codes "7" ∷ [])
unfolding segments_of non_empty pieces
ids = segments_of-IsSegment (codes "u1/7")

find_route-chunk_path_example :
    find_route (codes "POST") (render (chunk_segments (codes "u1") (codes "7"))) routes
    ≡ some (chunk_upload, chunk_fields (codes "u1") (codes "7"))
find_route-chunk_path_example =
    find_route-chunk_path (codes "u1") (codes "7") ids.0 ids.1.0 (λ e. cc)
