-- ===== src/Routes.antt =====
-- src/main.cpp: the table of routes that `main` registers, in its order. A handler is the name of
-- the function that is registered.
pub mod Shares
pub mod Uploads
mod Tests
use fileagent_server.Base.{List, []}
use fileagent_server.Base.Bytes.{codes}
use fileagent_server.FastCgiServer.{Route, register_handler}

-- The function given to `server.get`, `post`, `del` or `patch`; `share_download` is the one without
-- a name.
pub data Handler : Type 0 where
  health : Handler
  register : Handler
  login : Handler
  logout : Handler
  file_check : Handler
  chunk_init : Handler
  chunk_complete : Handler
  chunk_status : Handler
  chunk_upload : Handler
  upload : Handler
  list_files : Handler
  download : Handler
  delete : Handler
  share_download : Handler
  share_create : Handler
  share_list : Handler
  share_delete : Handler
  share_save : Handler
  share_ranking : Handler
  llm_chat : Handler
  llm_analyze : Handler
  search : Handler
  agent_chat : Handler
  admin_users : Handler
  admin_set_status : Handler
  admin_set_admin : Handler

abbrev public_routes : List (Route Handler) → List (Route Handler)
public_routes routes = register_handler (codes "POST") (codes "/api/files/check") file_check (
    register_handler (codes "POST") (codes "/api/user/logout") logout (
      register_handler (codes "POST") (codes "/api/user/login") login (
        register_handler (codes "POST") (codes "/api/user/register") register
          (register_handler (codes "GET") (codes "/health") health routes))))

abbrev chunk_routes : List (Route Handler) → List (Route Handler)
chunk_routes routes =
    register_handler (codes "POST") (codes "/api/files/upload/{uploadId}/{chunkIndex}") chunk_upload
      (register_handler (codes "GET") (codes "/api/files/upload/{uploadId}/status") chunk_status (
        register_handler (codes "POST") (codes "/api/files/upload/{uploadId}/complete")
          chunk_complete
          (register_handler (codes "POST") (codes "/api/files/upload/init") chunk_init routes)))

abbrev file_routes : List (Route Handler) → List (Route Handler)
file_routes routes = register_handler (codes "DELETE") (codes "/api/files/{fileId}") delete (
    register_handler (codes "GET") (codes "/api/files/{fileId}") download (
      register_handler (codes "GET") (codes "/api/files") list_files
        (register_handler (codes "POST") (codes "/api/files/upload") upload routes)))

abbrev share_routes : List (Route Handler) → List (Route Handler)
share_routes routes = register_handler (codes "GET") (codes "/api/shares/ranking") share_ranking (
    register_handler (codes "POST") (codes "/api/shares/{token}/save") share_save (
      register_handler (codes "DELETE") (codes "/api/shares/{token}") share_delete (
        register_handler (codes "GET") (codes "/api/shares") share_list (
          register_handler (codes "POST") (codes "/api/shares") share_create
            (register_handler (codes "GET") (codes "/api/shares/{token}") share_download routes)))))

abbrev other_routes : List (Route Handler) → List (Route Handler)
other_routes routes =
    register_handler (codes "PATCH") (codes "/api/admin/users/{userId}/admin") admin_set_admin (
      register_handler (codes "PATCH") (codes "/api/admin/users/{userId}/status") admin_set_status (
        register_handler (codes "GET") (codes "/api/admin/users") admin_users (
          register_handler (codes "POST") (codes "/api/agent/chat") agent_chat (
            register_handler (codes "POST") (codes "/api/search") search (
              register_handler (codes "POST") (codes "/api/llm/analyze") llm_analyze
                (register_handler (codes "POST") (codes "/api/llm/chat") llm_chat routes))))))

unfoldable pub routes : List (Route Handler)
routes = other_routes (share_routes (file_routes (chunk_routes (public_routes []))))
