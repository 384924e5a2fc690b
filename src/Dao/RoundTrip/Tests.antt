-- ===== src/Dao/RoundTrip/Tests.antt =====
-- Rows of each table.
use fileagent_server.Base.{◌≡◌, refl, arith, true, []}
use fileagent_server.Base.Bytes.{codes, c_str}
use fileagent_server.Base.Int.{pos, negsuc}
use fileagent_server.Base.Outcome.{returned}
use fileagent_server.Dao.Rows.{
  make_user_record, make_session_record, make_share_record, make_file_record,
}
use fileagent_server.Dao.RoundTrip.{
  user_row, session_row, share_row, file_row, at_row, UserFits, SessionFits, ShareFits, FileFits,
  make_record-row,
}
use fileagent_server.Models.{UserRecord, SessionRecord, ShareRecord, FileRecord}

abbrev user : UserRecord
user = record {
  id = pos 3;
  username = codes "ann";
  password = codes "x$y";
  email = [];
  status = negsuc 0;
  is_admin = true;
  created_at = codes "2025-01-01";
  updated_at = [];
}

abbrev session : SessionRecord
session = record {
  id = pos 1;
  user_id = pos 3;
  session_token = codes "ab";
  expires_at = codes "2025-01-02";
  created_at = [];
}

abbrev share : ShareRecord
share = record {
  id = pos 1;
  file_id = pos 2;
  user_id = pos 3;
  share_token = codes "cd";
  expires_at = [];
  created_at = [];
}

abbrev file : FileRecord
file = record {
  id = pos 2;
  user_id = pos 3;
  filename = codes "a";
  file_hash = codes "e";
  file_size = pos 4096;
  storage_path = codes "f";
  status = pos 1;
  summary = [];
  tags = [];
  created_at = [];
}

user_fits : UserFits user
unfolding c_str
user_fits = (omega arith, omega arith, (refl, (refl, (refl, (refl, (refl, tt))))))

session_fits : SessionFits session
unfolding c_str
session_fits = ((omega arith, (omega arith, tt)), (refl, (refl, (refl, tt))))

share_fits : ShareFits share
unfolding c_str
share_fits = ((omega arith, (omega arith, (omega arith, tt))), (refl, (refl, (refl, tt))))

file_fits : FileFits file
unfolding c_str
file_fits = (
  (omega arith, (omega arith, (omega arith, tt))),
  omega arith,
  (refl, (refl, (refl, (refl, (refl, (refl, tt)))))),
)

make_record-row_example :
    (make_user_record (at_row (user_row user)) ≡ returned user)
    × (make_session_record (at_row (session_row session)) ≡ returned session)
    × (make_share_record (at_row (share_row share)) ≡ returned share)
    × (make_file_record (at_row (file_row file)) ≡ returned file)
make_record-row_example =
    make_record-row user session share file user_fits session_fits share_fits file_fits
