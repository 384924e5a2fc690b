-- ===== src/Dao/Statements.antt =====
-- The statements that src/dao puts together from texts that users supply: what texts MySQL reads in
-- them.
mod Tests
use fileagent_server.Base.{
  ◌≡◌, ◌∙◌, refl, sym, ap, append-nil, Bool, true, false, List, [], ◌∷◌, ◌++◌, Option, none, some,
  is_empty, if◌then◌else◌, Bool-cases, inl, inr,
}
use fileagent_server.Base.Bytes.{Bytes, codes, c_str}
use fileagent_server.Base.Int.{ℤ}
use fileagent_server.Base.Number.{to_string}
use fileagent_server.Dao.Files
use fileagent_server.Dao.Sessions
use fileagent_server.Dao.Shares
use fileagent_server.Dao.Users
use fileagent_server.Database.{Mysql, escape}
use fileagent_server.Database.Literals.{
  literals, literals_from, Place, outside, inside, Escapes, literal_then, literal_last, number_then,
  number_last,
}
use fileagent_server.Models.{FileRecord}

-- The calls of src/dao that take a text, but for `findByUsername`.
pub data Call : Type 0 where
  create_user : Bytes → Bytes → Bytes → Call
  update_password : ℤ → Bytes → Call
  create_session : ℤ → Bytes → Bytes → Call
  find_session : Bytes → Call
  delete_session : Bytes → Call
  create_share : ℤ → ℤ → Bytes → Bytes → Call
  find_share : Bytes → Call
  delete_share : Bytes → Call
  create_file : FileRecord → Call
  find_file_by_hash : Bytes → Call
  update_file_meta : ℤ → Bytes → Bytes → Call

module _ {S : Type 0} (db : Mysql S) where
  -- The statement of a call.
  abbrev pub statement : Call → Bytes
  statement (create_user username password email) = Users.insert_sql db username password email
  statement (update_password id password) = Users.update_password_sql db id password
  statement (create_session user_id token expires_at) =
      Sessions.insert_sql db user_id token expires_at
  statement (find_session token) = Sessions.by_token_sql db token
  statement (delete_session token) = Sessions.delete_sql db token
  statement (create_share file_id user_id token expires_at) =
      Shares.insert_sql db file_id user_id token expires_at
  statement (find_share token) = Shares.by_token_sql db token
  statement (delete_share token) = Shares.delete_sql db token
  statement (create_file r) = Files.insert_sql db r
  statement (find_file_by_hash hash) = Files.by_hash_sql db hash
  statement (update_file_meta id summary tags) = Files.update_meta_sql db id summary tags

-- The texts that a call is given; a share that does not expire has no time.
abbrev pub texts : Call → List Bytes
texts (create_user username password email) = username ∷ password ∷ email ∷ []
texts (update_password id password) = password ∷ []
texts (create_session user_id token expires_at) = token ∷ expires_at ∷ []
texts (find_session token) = token ∷ []
texts (delete_session token) = token ∷ []
texts (create_share file_id user_id token expires_at) =
    if is_empty expires_at then token ∷ [] else token ∷ expires_at ∷ []
texts (find_share token) = token ∷ []
texts (delete_share token) = token ∷ []
texts (create_file r) = r.filename ∷ r.file_hash ∷ r.storage_path ∷ []
texts (find_file_by_hash hash) = hash ∷ []
texts (update_file_meta id summary tags) = summary ∷ tags ∷ []

module _ {S : Type 0} (db : Mysql S) (escapes : Escapes db) where
  literals-create_share :
      (file_id user_id : ℤ) (token expires_at : Bytes)
      → literals (c_str (statement db (create_share file_id user_id token expires_at)))
        ≡ some (texts (create_share file_id user_id token expires_at))
  unfolding literals literals_from c_str Shares.insert_sql
  literals-create_share file_id user_id token expires_at = elim (Bool-cases (is_empty expires_at)) [
    | inl e ↦ rw e (
        number_then file_id _
          (number_then user_id _ (literal_then db escapes token _ b')' refl refl refl)))
    | inr e ↦ rw e (
        number_then file_id _ (
          number_then user_id _ (
            literal_then db escapes token _ b',' refl refl
              (literal_then db escapes expires_at _ b')' refl refl refl))))
  ]

  literals-create_file :
      (r : FileRecord)
      → literals (c_str (statement db (create_file r))) ≡ some (texts (create_file r))
  unfolding literals literals_from c_str Files.insert_sql
  literals-create_file r = number_then r.user_id _ (
      literal_then db escapes r.filename _ b',' refl refl (
        literal_then db escapes r.file_hash _ b',' refl refl (
          number_then r.file_size _ (
            literal_then db escapes r.storage_path _ b',' refl refl
              (number_then r.status _ refl)))))

  -- Where the escaping of MySQL leaves no zero byte and makes every text stand for itself between
  -- quotes, the texts that MySQL reads in the statement of any call, as it is sent, are exactly the
  -- texts the call was given, in their order.
  pub literals-statement : (call : Call) → literals (c_str (statement db call)) ≡ some (texts call)
  unfolding literals literals_from c_str Users.insert_sql Users.update_password_sql
      Sessions.insert_sql Sessions.by_token_sql Sessions.delete_sql Shares.by_token_sql
      Shares.delete_sql Files.by_hash_sql Files.update_meta_sql
  literals-statement (create_user username password email) =
      literal_then db escapes username _ b',' refl refl (
        literal_then db escapes password _ b',' refl refl
          (literal_then db escapes email _ b',' refl refl refl))
  literals-statement (update_password id password) =
      literal_then db escapes password _ b',' refl refl (number_last id)
  literals-statement (create_session user_id token expires_at) = number_then user_id _ (
      literal_then db escapes token _ b',' refl refl
        (literal_then db escapes expires_at _ b')' refl refl refl))
  literals-statement (find_session token) = literal_then db escapes token _ b' ' refl refl refl
  literals-statement (delete_session token) = literal_last db escapes token
  literals-statement (create_share file_id user_id token expires_at) =
      literals-create_share file_id user_id token expires_at
  literals-statement (find_share token) = literal_then db escapes token _ b' ' refl refl refl
  literals-statement (delete_share token) = literal_last db escapes token
  literals-statement (create_file r) = literals-create_file r
  literals-statement (find_file_by_hash hash) = literal_then db escapes hash _ b' ' refl refl refl
  literals-statement (update_file_meta id summary tags) =
      literal_then db escapes summary _ b',' refl refl
        (literal_then db escapes tags _ b' ' refl refl (number_last id))
