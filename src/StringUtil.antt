-- ===== src/StringUtil.antt =====
-- src/common/StringUtil.h
use fileagent_server.Base.{◌&&◌, [], ◌∷◌, if◌then◌else◌, is_empty}
use fileagent_server.Base.Bytes.{Bytes}
use fileagent_server.Base.Number.{is_space, skip_spaces}

-- The second half of `trimCopy`.
unfoldable pub trim_end : Bytes → Bytes
trim_end [] = []
trim_end (c ∷ s) = let rest = trim_end s in if is_space c && is_empty rest then [] else c ∷ rest

unfoldable pub trim_copy : Bytes → Bytes
trim_copy s = trim_end (skip_spaces s)
