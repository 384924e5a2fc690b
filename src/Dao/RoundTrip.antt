-- ===== src/Dao/RoundTrip.antt =====
-- What src/dao makes of a row is what was in the table.
mod Tests
use fileagent_server.Base.{
  ℕ, ◌≡◌, ◌∙◌, refl, sym, ap, arith, ◌^◌, Bool, true, false, List, [], ◌∷◌, ◌++◌, append-nil,
  Option, none, some, All, All-map, if◌then◌else◌,
}
use fileagent_server.Base.Bytes.{Bytes, codes, c_str}
use fileagent_server.Base.Int.{ℤ, pos}
use fileagent_server.Base.Number.{
  to_string, stoi, stoll, Fits, stoi-to_string, stoll-to_string, to_string-IsNumeral,
}
use fileagent_server.Base.Outcome.{Outcome, returned, or_throw}
use fileagent_server.Dao.Rows.{
  make_user_record, make_session_record, make_share_record, make_file_record, is_one, ◌>>=◌,
}
use fileagent_server.Database.{Row, MysqlConn, value}
use fileagent_server.Database.Literals.{NonZero, IsNumeral→NonZero, c_str-append}
use fileagent_server.Models.{UserRecord, SessionRecord, ShareRecord, FileRecord}

-- The row that the server sends of a record, in the order of the columns of the queries.
abbrev pub user_row : UserRecord → Row
user_row r =
    some (to_string r.id)
    ∷ some r.username
    ∷ some r.password
    ∷ some r.email
    ∷ some (to_string r.status)
    ∷ some (if r.is_admin then codes "1" else codes "0")
    ∷ some r.created_at
    ∷ some r.updated_at
    ∷ []

abbrev pub session_row : SessionRecord → Row
session_row r =
    some (to_string r.id)
    ∷ some (to_string r.user_id)
    ∷ some r.session_token
    ∷ some r.expires_at
    ∷ some r.created_at
    ∷ []

abbrev pub share_row : ShareRecord → Row
share_row r =
    some (to_string r.id)
    ∷ some (to_string r.file_id)
    ∷ some (to_string r.user_id)
    ∷ some r.share_token
    ∷ some r.expires_at
    ∷ some r.created_at
    ∷ []

abbrev pub file_row : FileRecord → Row
file_row r =
    some (to_string r.id)
    ∷ some (to_string r.user_id)
    ∷ some r.filename
    ∷ some r.file_hash
    ∷ some (to_string r.file_size)
    ∷ some r.storage_path
    ∷ some (to_string r.status)
    ∷ some r.summary
    ∷ some r.tags
    ∷ some r.created_at
    ∷ []

-- The connection at a row.
abbrev pub at_row : Row → MysqlConn
at_row row = record { result = some []; row = some row }

-- A 64-bit number, a 32-bit number, and a text that C sees whole.
abbrev pub IsLong : ℤ → Type 0
IsLong i = Fits (2 ^ 63) i

abbrev pub IsInt : ℤ → Type 0
IsInt i = Fits (2 ^ 31) i

abbrev pub IsText : Bytes → Type 0
IsText s = c_str s ≡ s

-- What a table can hold of a record: numbers of 64 bits, a status of 32, and texts.
abbrev pub UserFits : UserRecord → Type 0
UserFits r =
    IsLong r.id
    × IsInt r.status
    × All IsText (r.username ∷ r.password ∷ r.email ∷ r.created_at ∷ r.updated_at ∷ [])

abbrev pub SessionFits : SessionRecord → Type 0
SessionFits r =
    All IsLong (r.id ∷ r.user_id ∷ [])
    × All IsText (r.session_token ∷ r.expires_at ∷ r.created_at ∷ [])

abbrev pub ShareFits : ShareRecord → Type 0
ShareFits r =
    All IsLong (r.id ∷ r.file_id ∷ r.user_id ∷ [])
    × All IsText (r.share_token ∷ r.expires_at ∷ r.created_at ∷ [])

abbrev pub FileFits : FileRecord → Type 0
FileFits r =
    All IsLong (r.id ∷ r.user_id ∷ r.file_size ∷ [])
    × IsInt r.status
    × All IsText
        (r.filename ∷ r.file_hash ∷ r.storage_path ∷ r.summary ∷ r.tags ∷ r.created_at ∷ [])

whole_number : (i : ℤ) → c_str (to_string i) ≡ to_string i
unfolding c_str
whole_number i =
    let numeral = to_string-IsNumeral i in
    ap c_str (sym (append-nil (to_string i)))
    ∙ c_str-append (to_string i) [] (All-map IsNumeral→NonZero (to_string i) numeral)
    ∙ append-nil (to_string i)

long_column : (i : ℤ) → IsLong i → or_throw (stoll (c_str (to_string i))) ≡ returned i
long_column i h = ap (λ s. or_throw (stoll s)) (whole_number i) ∙ ap or_throw (stoll-to_string i h)

int_column : (i : ℤ) → IsInt i → or_throw (stoi (c_str (to_string i))) ≡ returned i
int_column i h = ap (λ s. or_throw (stoi s)) (whole_number i) ∙ ap or_throw (stoi-to_string i h)

flag_column : (b : Bool) → is_one (some (c_str (if b then codes "1" else codes "0"))) ≡ b
unfolding c_str
flag_column true = refl
flag_column false = refl

make_user_record-user_row :
    (r : UserRecord) → UserFits r → make_user_record (at_row (user_row r)) ≡ returned r
unfolding make_user_record value
make_user_record-user_row r (id, status, (name, (password, (email, (created, (updated, end)))))) =
    rw
      (
        long_column r.id id,
        int_column r.status status,
        flag_column r.is_admin,
        name,
        password,
        email,
        created,
        updated,
      )
      refl

make_session_record-session_row :
    (r : SessionRecord) → SessionFits r → make_session_record (at_row (session_row r)) ≡ returned r
unfolding make_session_record value
make_session_record-session_row r ((id, (user_id, none_left)), (token, (expires, (created, end)))) =
    rw (long_column r.id id, long_column r.user_id user_id, token, expires, created) refl

make_share_record-share_row :
    (r : ShareRecord) → ShareFits r → make_share_record (at_row (share_row r)) ≡ returned r
unfolding make_share_record value
make_share_record-share_row r
      ((id, (file_id, (user_id, none_left))), (token, (expires, (created, end)))) =
    rw
      (
        long_column r.id id,
        long_column r.file_id file_id,
        long_column r.user_id user_id,
        token,
        expires,
        created,
      )
      refl

make_file_record-file_row :
    (r : FileRecord) → FileFits r → make_file_record (at_row (file_row r)) ≡ returned r
unfolding make_file_record value
make_file_record-file_row r
      (
        (id, (user_id, (size, none_left))),
        status,
        (name, (hash, (path, (summary, (tags, (created, end)))))),
      ) =
    rw
      (
        long_column r.id id,
        long_column r.user_id user_id,
        long_column r.file_size size,
        int_column r.status status,
        name,
        hash,
        path,
        summary,
        tags,
        created,
      )
      refl

-- A user, a session, a share and a file are read back from their rows, if their numbers have 64 bits,
-- their status 32, and their texts no zero byte.
pub make_record-row :
    (user : UserRecord) (session : SessionRecord) (share : ShareRecord) (file : FileRecord)
    → UserFits user
    → SessionFits session
    → ShareFits share
    → FileFits file
    → (make_user_record (at_row (user_row user)) ≡ returned user)
      × (make_session_record (at_row (session_row session)) ≡ returned session)
      × (make_share_record (at_row (share_row share)) ≡ returned share)
      × (make_file_record (at_row (file_row file)) ≡ returned file)
make_record-row user session share file u e s f = (
  make_user_record-user_row user u,
  make_session_record-session_row session e,
  make_share_record-share_row share s,
  make_file_record-file_row file f,
)
