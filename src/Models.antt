-- ===== src/Models.antt =====
-- src/dao/Models.h and src/service/ServiceTypes.h: the records of the tables, and the results of the
-- services.
use fileagent_server.Base.{Bool, true, false, List, [], Option, none, some}
use fileagent_server.Base.Bytes.{Bytes}
use fileagent_server.Base.Int.{ℤ}

pub record UserRecord : Type 0 where
  pub id : ℤ
  pub username : Bytes
  pub password : Bytes
  pub email : Bytes
  pub status : ℤ
  pub is_admin : Bool
  pub created_at : Bytes
  pub updated_at : Bytes

pub record ServiceResult (A : Type 0) : Type 0 where
  pub success : Bool
  pub message : Bytes
  pub value : Option A

abbrev pub succeed : {A : Type 0} → A → Bytes → ServiceResult A
succeed a message = record { success = true; message = message; value = some a }

abbrev pub failed : {A : Type 0} → Bytes → ServiceResult A
failed message = record { success = false; message = message; value = none }

pub record ServiceStatus : Type 0 where
  pub success : Bool
  pub message : Bytes

-- `ServiceListResult`
pub record ServiceListResult (A : Type 0) : Type 0 where
  pub success : Bool
  pub message : Bytes
  pub values : List A

abbrev pub succeed_list : {A : Type 0} → List A → Bytes → ServiceListResult A
succeed_list values message = record { success = true; message = message; values = values }

abbrev pub failed_list : {A : Type 0} → Bytes → ServiceListResult A
failed_list message = record { success = false; message = message; values = [] }

abbrev pub status_ok : Bytes → ServiceStatus
status_ok message = record { success = true; message = message }

abbrev pub status_fail : Bytes → ServiceStatus
status_fail message = record { success = false; message = message }

pub record SessionRecord : Type 0 where
  pub id : ℤ
  pub user_id : ℤ
  pub session_token : Bytes
  pub expires_at : Bytes
  pub created_at : Bytes

pub record ShareRecord : Type 0 where
  pub id : ℤ
  pub file_id : ℤ
  pub user_id : ℤ
  pub share_token : Bytes
  pub expires_at : Bytes
  pub created_at : Bytes

pub record FileRecord : Type 0 where
  pub id : ℤ
  pub user_id : ℤ
  pub filename : Bytes
  pub file_hash : Bytes
  pub file_size : ℤ
  pub storage_path : Bytes
  pub status : ℤ
  pub summary : Bytes
  pub tags : Bytes
  pub created_at : Bytes
