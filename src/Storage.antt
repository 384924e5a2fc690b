-- ===== src/Storage.antt =====
-- src/main.cpp: where the contents of files are kept. The file system and the client of FastDFS
-- (src/common/FastDfsClient.cpp) are the record `Backend`, over any state `D` of the two.
use fileagent_server.Base.{
  Bool, true, false, not, ◌&&◌, ◌||◌, [], ◌∷◌, ◌++◌, Option, none, some, ltb, ◌==◌, if◌then◌else◌,
  length, is_empty, take,
}
use fileagent_server.Base.Bytes.{Bytes, codes, bytes_eq}

pub record Backend (D : Type 0) : Type 0 where
  pub exists : Bytes → D → Bool
  pub create_directories : Bytes → D → Bool × D
  -- What std::ifstream reads, or std::ofstream writes, of a file, if it can be opened.
  pub read : Bytes → D → Option Bytes
  pub write : Bytes → Bytes → D → Bool × D
  -- Whether std::filesystem::remove gives no error.
  pub remove : Bytes → D → Bool × D
  -- `g_fastdfs && g_fastdfs->initialized()`, and the calls of the client.
  pub fastdfs : Bool
  pub upload : Bytes → Bytes → D → Option Bytes × D
  pub download : Bytes → D → Option Bytes
  pub delete : Bytes → D → Bool × D

unfoldable pub build_storage_path : Bytes → Bytes
build_storage_path file_hash =
    if ltb (length file_hash) 2
    then codes "uploads/" ++ file_hash
    else codes "uploads/" ++ (take 2 file_hash ++ (codes "/" ++ file_hash))

-- `substr(0, find_last_of('/'))`
abbrev pub up_to_last_slash : Bytes → Option Bytes
up_to_last_slash [] = none
up_to_last_slash (c ∷ s) = elim (up_to_last_slash s) [
  | some t ↦ some (c ∷ t)
  | none ↦ if c == b'/' then some [] else none
]

abbrev pub directory_of : Bytes → Bytes
directory_of path = elim (up_to_last_slash path) [ some t ↦ t | none ↦ path ]

-- `path.find("group") == 0 || path.find("Group") == 0`
unfoldable pub is_fast_dfs_path : Bytes → Bool
is_fast_dfs_path path =
    bytes_eq (take 5 path) (codes "group") || bytes_eq (take 5 path) (codes "Group")

-- What stands behind the first slash.
abbrev pub after_slash : Bytes → Option Bytes
after_slash [] = none
after_slash (c ∷ s) = if c == b'/' then some s else after_slash s

abbrev redirect_to : Option Bytes → Bytes
redirect_to none = []
redirect_to (some rest) = codes "/fastdfs-files/" ++ rest

abbrev second_slash : Option Bytes → Bytes
second_slash none = []
second_slash (some rest) = redirect_to (after_slash rest)

unfoldable pub to_fast_dfs_redirect_url : Bytes → Bytes
to_fast_dfs_redirect_url file_id = second_slash (after_slash file_id)

module _ {D : Type 0} (backend : Backend D) where
  unfoldable pub ensure_directory : Bytes → D → Bool × D
  ensure_directory path d =
      if backend.exists path d then (true, d) else backend.create_directories path d

  abbrev written : Bytes → Bytes → Bool × D → Option Bytes × D
  written path content (false, d) = (none, d)
  written path content (true, d) =
      let (done, d') = backend.write path content d in (if done then some path else none, d')

  -- The path under which the content is stored, if it is.
  unfoldable pub store_file : Bytes → Bytes → Bytes → D → Option Bytes × D
  store_file content filename file_hash d =
      let path = build_storage_path file_hash in
      if backend.fastdfs
      then backend.upload content filename d
      else written path content (ensure_directory (directory_of path) d)

  unfoldable pub retrieve_file : Bytes → D → Option Bytes
  retrieve_file storage_path d =
      if is_fast_dfs_path storage_path && backend.fastdfs
      then backend.download storage_path d
      else backend.read storage_path d

  unfoldable pub delete_stored_file : Bytes → D → Bool × D
  delete_stored_file storage_path d =
      if is_fast_dfs_path storage_path && backend.fastdfs
      then backend.delete storage_path d
      else if not (is_empty storage_path) && backend.exists storage_path d
      then backend.remove storage_path d
      else (true, d)
