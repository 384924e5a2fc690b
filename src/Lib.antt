-- ===== src/Lib.antt =====
-- Theorems on the fileagent server: its cache of files, its pool of database connections, its
-- FastCGI front end, its limit on requests, its uploads and its cutting of texts. The definitions
-- follow the C++ code function by function; paths are those of the repository.
--
-- How the parts meet: FastCgiServer parses a request and finds its route in the table of main
-- (Routes); Responses is the round of the accept loop that calls the handler and sends what it
-- made. The handlers of registration and login ask the RateLimiter first; those of uploads read a
-- body by Multipart, or keep sessions and chunks (ChunkUpload). A stored text is cut by
-- TextChunker for the vector index. The handlers (Handlers) authenticate by SessionDao and call
-- the services and src/dao. FileService and SessionDao keep records in caches, such as LruCache,
-- before the database, which src/dao reaches by a ConnectionPool.
--
-- Files:
-- * Base, Base/Tests, Base/Lists, Base/Bytes, Base/Assoc, Base/Int, Base/Number, Base/Outcome: what all share:
--     Boolean tests, lists, strings as lists of bytes, maps, signed integers, numbers in texts, exceptions.
-- * LruCache (src/common/LruCache.h): std::list is a list of nodes with addresses, an iterator is an
--     address; Nodes, Links, Invariant and Entries lead to Refinement.
-- * ConnectionPool (src/db/ConnectionPool.cpp): every stretch of code under the mutex is a function,
--     and Steps makes of them a step relation of the pool and its users, in any interleaving.
-- * FastCgiServer (src/server/FastCgiServer.cpp, HttpContext.h): Segments is about paths, Matching about
--     routes, Requests about parsing. Routes (src/main.cpp) is the table, with Uploads and Shares.
-- * Responses (src/server/FastCgiServer.cpp): run and sendResponse; Dispatch is about the handler that
--     answers. Multipart: parseMultipartFormData; Search and Progress.
-- * RateLimiter (src/common/RateLimiter.h): Windows counts times, History and Admissions are about
--     sequences of requests, Clients (src/main.cpp) about the address that is used.
-- * ChunkUpload (src/service/ChunkUploadService.cpp, src/main.cpp): Assembly and Cleanup.
-- * Hash (src/common/Hash.cpp): Tokens and Salts; crypt_r is a parameter of hashing and verifying.
-- * AuthService (src/service/AuthService.cpp), over an interface of the table of users; Crypt, Registered, Accounts and Found.
-- * VectorStore (src/vector/VectorStore.cpp), over any similarity and any sort; Removal.
-- * Models (src/dao/Models.h, src/service/ServiceTypes.h), StringUtil (src/common/StringUtil.h).
-- * CacheInterface (src/common/CacheInterface.h): the operations of a cache and their laws; Lru.
-- * Database (src/db/MysqlConn.cpp), over the client library of MySQL; Literals reads statements.
-- * Dao (src/dao): Rows makes records of rows; Users, Files, Sessions and Shares are the tables;
--     Statements, RoundTrip, Login and Logout are about them.
-- * FileService (src/service/FileService.cpp), over the table and any two caches; Coherence, Rows, Answers,
--     Known and Stale.
-- * ShareService (src/service/ShareService.cpp), Storage (src/main.cpp): the contents of files.
-- * Handlers (src/main.cpp): authentication and what the handlers share; Users, Files, Shares, Admin,
--     Chunks, Ranking and Assistant have the handlers; Access, Owners, Login, Logout and Copies are about them, Served about the table.
-- * TextChunker (src/vector/TextChunker.cpp): Window, BySize, Numbers and Stitch for chunkBySize; Paragraphs,
--     Merge, ByParagraph and Content for chunkByParagraph.
-- Each Tests file has runs at concrete inputs.
--
-- Conventions: std::string is the list of its bytes; size_t is a natural number, with the wrap at
-- 2^64 written out where the code subtracts; int and int64_t are signed integers; the counter of
-- the -- chunks of a text wraps at 2^31, where the source's would overflow. A mutex makes a
-- function atomic. Time, random bytes, the answers of MySQL and of FastCGI and whether a file can
-- be written are arguments. A function that can throw gives none then, or `thrown`
-- (Base/Outcome), and what it changed before stays changed.
--
-- Fuel: the loop of chunkBySize has the length of the text as fuel, and that of
-- parseMultipartFormData one more than the length of the body; each round moves on by at least
-- one byte, in the first loop where the overlap is at most half the chunk size. std::to_string
-- has its number as fuel. The unordered maps are association lists, whose order nothing depends
-- on except the order of the headers that are sent.
--
-- Not modelled: the tables behind the statements, the execution of prepared statements, JSON, the
-- clients of Redis, FastDFS and language models, the handlers that upload a file at once, end an
-- upload in chunks, search or report health, the extraction of texts, the configuration and the
-- log. Library calls are parameters; the services and the handlers build on the parts above.
pub mod Base
pub mod LruCache
pub mod ConnectionPool
pub mod FastCgiServer
pub mod Routes
pub mod Responses
pub mod Multipart
pub mod RateLimiter
pub mod ChunkUpload
pub mod Hash
pub mod TextChunker
pub mod AuthService
pub mod VectorStore
pub mod Models
pub mod StringUtil
pub mod CacheInterface
pub mod Database
pub mod Dao
pub mod FileService
pub mod ShareService
pub mod Storage
pub mod Handlers
