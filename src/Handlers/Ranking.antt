-- ===== src/Handlers/Ranking.antt =====
-- src/main.cpp: the ranking of the shares, which is open to everyone.
use fileagent_server.Base.{List, [], ◌∷◌, ◌++◌, length}
use fileagent_server.Base.Bytes.{Bytes, codes}
use fileagent_server.Base.Int.{ℤ, pos}
use fileagent_server.Base.Number.{to_string}
use fileagent_server.Base.Outcome.{Outcome, returned, bind}
use fileagent_server.Dao.Rows.{long_or_zero, text_or_empty, make_all, ◌>>=◌}
use fileagent_server.Database.{MysqlConn, all_rows, value}
use fileagent_server.FastCgiServer.{HttpRequest, get_query}
use fileagent_server.Responses.{HttpResponse}
use fileagent_server.Handlers.{Parts, Handled, ask_server, number_or, answered}

module _ {S D J : Type 0} (parts : Parts S D J) where
  unfoldable pub ranking_sql : ℤ → Bytes
  ranking_sql limit =
      codes
        "SELECT s.file_id, f.filename, f.user_id, u.username, COUNT(*) as share_count FROM shares s JOIN files f ON s.file_id = f.id JOIN users u ON f.user_id = u.id GROUP BY s.file_id ORDER BY share_count DESC LIMIT "
      ++ to_string limit

  unfoldable pub ranking_item : MysqlConn → Outcome J
  ranking_item c = do
    file_id ← long_or_zero (value (pos 0) c)
    user_id ← long_or_zero (value (pos 2) c)
    share_count ← long_or_zero (value (pos 4) c)
    returned (
        parts.json.object (
          (codes "file_id", parts.json.number file_id)
          ∷ (codes "filename", parts.json.text (text_or_empty (value (pos 1) c)))
          ∷ (codes "user_id", parts.json.number user_id)
          ∷ (codes "username", parts.json.text (text_or_empty (value (pos 3) c)))
          ∷ (codes "share_count", parts.json.number share_count)
          ∷ []))

  abbrev ranking_reply : HttpResponse → List J → Handled parts
  ranking_reply resp items =
      answered parts
        ((codes "code", parts.json.number (pos 0))
          ∷ (codes "message", parts.json.text (codes "success"))
          ∷ (codes "ranking", parts.json.array items)
          ∷ (codes "total", parts.json.number (pos (length items)))
          ∷ [])
        resp

  abbrev ranked : HttpResponse → ℤ → Handled parts
  ranked resp limit w =
      bind (ranking_reply resp) (
        ask_server parts (λ st. make_all ranking_item (all_rows parts.db (ranking_sql limit) st)) w)

  unfoldable pub handle_share_ranking : HttpRequest → HttpResponse → Handled parts
  handle_share_ranking req resp w =
      bind (ranked resp) (number_or parts (pos 10) (get_query req (codes "limit") []) w)
