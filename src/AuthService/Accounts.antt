-- ===== src/AuthService/Accounts.antt =====
-- src/service/AuthService.cpp: a registered user can log in, and with which passwords.
use fileagent_server.Base.Bytes.{Bytes}
