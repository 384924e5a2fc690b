-- ===== src/Dao.antt =====
-- src/dao: the statements that the tables are read and changed by, over the client of MySQL.
pub mod Rows
pub mod Users
pub mod Files
pub mod Sessions
pub mod Shares
pub mod Statements
pub mod RoundTrip
pub mod Logout
pub mod Login
