-- ===== src/Handlers/Assistant.antt =====
-- src/main.cpp: the handlers that ask a language model. What the model answers is an argument, and so
-- is whether the agent was initialized.
use fileagent_server.Base.{
  Bool, ◌||◌, [], ◌∷◌, ◌++◌, Option, none, some, ltb, if◌then◌else◌, length, is_empty, take,
}
use fileagent_server.Base.Bytes.{Bytes, codes}
use fileagent_server.Base.Int.{ℤ, pos, leb_ℤ}
use fileagent_server.Base.Outcome.{◌>>=◌, returned, thrown, tries}
use fileagent_server.FastCgiServer.{HttpRequest}
use fileagent_server.FileService
use fileagent_server.Models.{ServiceResult}
use fileagent_server.Responses.{HttpResponse}
use fileagent_server.Handlers.Files.{reply, if_success, with_file}
use fileagent_server.Handlers.{
  Parts, Handled, on_files, converted, answered, make_json_response, require_auth,
  require_json_body,
}

module _ {S D J : Type 0} (parts : Parts S D J) where
  abbrev text_reply : Bytes → HttpResponse → Bytes → Handled parts
  text_reply key resp text =
      answered parts
        ((codes "code", parts.json.number (pos 0))
          ∷ (codes "message", parts.json.text (codes "success"))
          ∷ (key, parts.json.text text)
          ∷ [])
        resp

  -- The message of a failure may hold what the service sent.
  abbrev model_failure : Bytes → HttpResponse → Handled parts
  model_failure message resp = tries λ w.
      if parts.json.is_utf8 (parts.json.text message)
      then returned (make_json_response parts (pos 500) message resp)
      else thrown

  abbrev model_reply : Bytes → HttpResponse → ServiceResult Bytes → Handled parts
  model_reply key resp result =
      if_success result (model_failure result.message resp) (text_reply key resp)

  unfoldable pub handle_llm_chat :
      (Bytes → ServiceResult Bytes) → HttpRequest → HttpResponse → Handled parts
  handle_llm_chat chat req resp = require_auth parts req resp λ user_id.
      require_json_body parts req resp λ j.
        converted parts (parts.json.get_text (codes "prompt") j) >>= λ prompt.
        if is_empty prompt
        then reply parts (pos 400) (codes "prompt is empty") resp
        else model_reply (codes "response") resp (chat prompt)

  -- The notice, in UTF-8, that the text was cut.
  abbrev cut_notice : Bytes
  cut_notice =
      10 ∷ 10 ∷ 91 ∷ 229 ∷ 134 ∷ 133 ∷ 229 ∷ 174 ∷ 185 ∷ 229 ∷ 183 ∷ 178 ∷ 230 ∷ 136 ∷ 170 ∷ 230
      ∷ 150 ∷ 173 ∷ 239 ∷ 188 ∷ 140 ∷ 228 ∷ 187 ∷ 133 ∷ 229 ∷ 136 ∷ 134 ∷ 230 ∷ 158 ∷ 144 ∷ 229
      ∷ 137 ∷ 141 ∷ 32 ∷ 49 ∷ 48 ∷ 48 ∷ 75 ∷ 66 ∷ 93 ∷ []

  unfoldable pub cut_content : Bytes → Bytes
  cut_content content =
      if ltb 100000 (length content) then take 100000 content ++ cut_notice else content

  abbrev analyzed : (Bytes → ServiceResult Bytes) → HttpResponse → Option Bytes → Handled parts
  analyzed analyze resp none = reply parts (pos 500) (codes "failed to read file") resp
  analyzed analyze resp (some content) =
      model_reply (codes "analysis") resp (analyze (cut_content content))

  -- The file is read from the local disk in any case.
  unfoldable pub handle_llm_analyze :
      (Bytes → Bytes → ServiceResult Bytes) → HttpRequest → HttpResponse → Handled parts
  handle_llm_analyze analyze req resp = require_auth parts req resp λ user_id.
      require_json_body parts req resp λ j.
        converted parts (parts.json.get_int64 (codes "file_id") j) >>= λ file_id.
        converted parts (parts.json.get_text (codes "instruction") j) >>= λ instruction.
        if leb_ℤ file_id (pos 0) || is_empty instruction
        then reply parts (pos 400) (codes "file_id and instruction are required") resp
        else on_files parts (FileService.get_file_by_id parts.db parts.by_id parts.by_hash file_id)
          >>= with_file parts user_id resp (λ file w.
            analyzed (λ content. analyze content instruction) resp
              (parts.backend.read file.storage_path w.disk) w)

  unfoldable pub handle_agent_chat :
      Bool → (Bytes → ℤ → Bytes) → HttpRequest → HttpResponse → Handled parts
  handle_agent_chat initialized chat req resp = require_auth parts req resp λ user_id.
      require_json_body parts req resp λ j.
        converted parts (parts.json.get_text (codes "message") j) >>= λ message.
        if is_empty message
        then reply parts (pos 400) (codes "message is required") resp
        else if initialized
        then text_reply (codes "response") resp (chat message user_id)
        else reply parts (pos 503) (codes "Agent engine not initialized") resp
