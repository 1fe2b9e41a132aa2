-- ===== src/Lib.antt =====
-- HydraFS, a picture bed and cloud drive: the FastCGI programs of src_cgi/ and the C modules of
-- common/ that they share.
--
-- A program takes a request, asks MySQL and Redis, writes the answer and waits for the next one. The
-- tables of the database (docker/mysql/init.sql) are the state that all of them share: file_info has
-- a row for each stored file with the number of references to it, user_file_list a row for each file
-- of each user, user_file_count the number of files of a user, share_file_list the shared files.
-- FastDFS holds the contents. What the programs must keep, each of them, is that the reference count
-- is at least the number of user files with that md5, since the last reference that is deleted
-- removes the file from storage.
--
-- Text models common/util_cgi.c, and Base64 common/base64.c, on bytes as natural numbers below 256;
-- a text of C is its bytes before the NUL. Both have executable functions, one per function of the
-- source, with one helper for each loop; the loops are structural recursion, or, in string_replace,
-- recursion on the number of bytes, which is enough since each round consumes one.
--
-- Backend holds what the programs call and do not implement: MySQL, Redis, the FastDFS tool and the
-- clock are the fields of a record System over an arbitrary type of worlds. A statement is a
-- constructor of Sql with the values printed into its text. Backend/Mysql models
-- common/deal_mysql.c, and Backend/Redis the part of common/redis_op.c that the programs call. The
-- steps of a request are functions from a world to an outcome and a world; goto END is the outcome
-- stop with the return value, a read through a NULL reply the outcome crash.
--
-- Backend/Contract is the hypothesis of the theorems on requests: what a statement does that
-- succeeds, that one that fails does nothing, what the queries answer, and the unique keys.
-- Backend/Memory is a system that runs and meets it, with statements that fail at will; the concrete
-- runs in Examples use it. Backend/Triple has the rules by which a property is carried through the
-- steps of a request, END included, together with what is known of the return value there;
-- its children have the rules for statements and for a whole session.
--
-- Knowledge models common/knowledge_task.c. Files holds the requests: InstantUpload for
-- src_cgi/md5_cgi.c, SaveShared for save_file of src_cgi/dealsharefile_cgi.c, ChunkMerge for the
-- database side of src_cgi/chunk_merge_cgi.c and MergeRequest for its main; Count is the step that
-- they share. Delete models del_file of src_cgi/dealfile_cgi.c, and Share the sharing of
-- src_cgi/dealfile_cgi.c and src_cgi/dealsharefile_cgi.c. Session puts the requests one behind the
-- other. Files/Invariant states what they keep, with and without a reference to spare.
--
-- Upload models the parsing of a posted form by recv_save_file of src_cgi/upload_cgi.c: Multipart has
-- the functions, in a monad with a failure and a fault, which is a read or a write outside the
-- memory, so that a text which is longer than its buffer is a fault; Form has the text that a browser posts. Files/Upload is what main does with the parsed
-- form, over the programs of FastDFS as a record Programs.
-- A process that fork makes and whose execlp returns is the outcome in_child; the theorem on uploads
-- assumes that the programs can be executed.
--
-- Chunks models write_chunk_atomic of src_cgi/chunk_upload_cgi.c over a file system, FileSystem, with
-- what POSIX says of its calls in Chunks/Posix; the loop of write runs on the number of bytes as
-- fuel, which is enough since a round that goes on writes one. No other process touches the files
-- meanwhile.
--
-- Merge models the lock of src_cgi/chunk_merge_cgi.c and the copying of the chunks into FastDFS, over
-- the appender interface and the directory of the chunks as a record ChunkStore. The script in Lua that releases the
-- lock is a function, which Redis runs. Merge/Lock has the hypothesis on Redis, Merge/Joined the one on FastDFS and the file system; the loops run over the
-- number of chunks.
--
-- Accounts models the registration of src_cgi/reg_cgi.c and the check of the password of
-- src_cgi/login_cgi.c, with the MD5 and the random salt as a record Hashing. Des models the wrappers of
-- common/des.c around a cipher, a record Cipher: the blocks, the padding, and DesEnc and DesDec; the
-- cipher is a copy of a public implementation. The key schedule is 32 longs of which 128 bytes are
-- copied, so that the round trip is stated for longs of four bytes.
--
-- Ranking models the public ranking of src_cgi/sharefiles_cgi.c: the number of the shared files, the
-- comparison of it with the sorted set of Redis, the import from MySQL, and the list that is answered.
-- Ranking/Store says what is assumed of Redis there, Ranking/Rebuild of the query of the whole list.
--
-- Pictures models src_cgi/sharepicture_cgi.c: a shared picture holds a reference to its file, under a
-- link. Pictures/Invariant says what is kept: the count covers the rows of the users and the shared
-- pictures together. The link, an MD5, and the random numbers are a record PictureNames.
--
-- Chunker models common/knowledge_chunker.cpp, which cuts a document into chunks for the search: bytes,
-- code points as pairs of offsets, and the loop with the number of chunks that may still come as its
-- fuel, which is the bound max_chunks of the source. The SHA-256 is a parameter.
--
-- Breaker models the circuit breaker of common/storage_resilience.cpp, in front of the blob store of the
-- gateway: Config the settings, State the window and the times, Shared what the processes share
-- through Redis, and Calls the calls, each a step under the mutex, over the clock and Redis as a
-- record BreakerSystem and the arithmetic of double as a record Double. Breaker/Phase is an abstract
-- machine of its probes, Breaker/Steps says that each call is a step of it, and Breaker/Probes has
-- the sequences of calls.
--
-- Parts models the leases of the parts of an upload in common/storage_metadata_store.cpp: the claim of a
-- part, the record of its file, its end and its failure, each a transaction over the client library
-- of MySQL as a record PartSystem. Parts/Contract has the tables chunk_blob and upload_part as far as
-- they matter, and what the statements do, with a COMMIT that takes effect though its reply is lost; Parts/Wire and Parts/Rules carry what is known through a
-- transaction.
--
-- Not modelled: reading a request (cJSON, the environment), writing the answer, the log, requests
-- that run at the same time, texts whose quotes change a statement, the collation by which the
-- tables compare names (here they are compared as texts), and the limits of the buffers
-- that a statement is printed into. The other C++ parts (storage gateway, knowledge workers)
-- stand apart from these programs.
pub mod Prelude
pub mod Text
pub mod Upload
pub mod Base64
pub mod Des
pub mod Backend
pub mod Knowledge
pub mod Files
pub mod Chunks
pub mod Merge
pub mod Pictures
pub mod Chunker
pub mod Breaker
pub mod Parts
pub mod Ranking
pub mod Accounts
mod Examples
