-- ===== src/Lib.antt =====
-- homeKeeper: a set of daemons that watch the public address of a home, mail it when it changes,
-- send files by mail, and keep worker processes running.
--
-- The program's parts, and the files that model them. A path is one of the repository. The functions
-- keep their names, in small letters with underscores; a class becomes a record of its members.
--
--   Prelude     lists, texts (bytes with C's final zero), `snprintf` into an array, and integers
--   StdMap      `std::map`, as a list of pairs in the order of the keys (StdMap/Sorted,
--               and StdMap/Unique for the equality of two maps)
--   Base64      include/base64.hpp; Base64/Bits has the description of RFC 4648 by bits
--   Payload     include/EmailSender.hpp: the stream of the message and the source that libcurl reads
--   Email       include/EmailSender.hpp: the object with its setters (Email), the names and types of
--               attachments (Email/Names), the MIME tree (Email/Message) and the attempts to deliver
--               (Email/Delivery)
--   Database    include/MysqlDataBase.hpp
--   Tables      include/tblIpInfo.hpp, include/tblEmailInfo.hpp, homeKeeper/downloadfile.hpp: reading
--               and writing rows, and the statements (Tables/Bind), the life of an object
--               (Tables/Lifetime)
--   Curl        include/curl.hpp
--   Jobs        homeKeeper/workFunctions.hpp: a round of each work function, the histories of the table
--               of addresses (Jobs/History for `getIp`, Jobs/Marks and Jobs/MailedOnce for `sendEmail`,
--               Jobs/Writes and Jobs/Both for both threads with their outer loops),
--               `sendEmail` with its outer loop (Jobs/Sessions), `getIp` with its (Jobs/Openings),
--               `sendFile` with its (Jobs/Retries), and `sendFile` with runs of `SendMail` (Jobs/Deliveries)
--   Keeper      homeKeeper/keeper.cpp: `start`
--   MailServer  mailServer/mailServer.cpp and mailServer/mailTest.cpp
--   File        include/file.hpp: its calls of stdio (File, File/Safety), and what the files hold
--               (File/Contents)
--   ThreadPool  include/threadPool.hpp: the table and the threads (ThreadPool), the calls of
--               `setFunction` (ThreadPool/Orders, Finals and Classes), and the blocks that the pool
--               allocates and frees (ThreadPool/Blocks, with Sound and Frees)
--   Device      include/device.hpp: `init`, and the two UDP threads (Device/Sockets)
--   HmLog       include/hmLog.hpp: the queue (HmLog), the destructor (HmLog/Shutdown), the threads under the
--               mutex and the condition variable (HmLog/Threads, with Inside, Exclusion, Sound, Order,
--               Progress, Adequate and Files), `init` with
--               include/env.hpp and include/node.hpp (HmLog/Setup), and what the printing thread
--               writes (HmLog/Output: Lines for a record, Files for the loop, Machine for the threads,
--               Whole with the destructor, Session from `init` on, Missing for a log whose
--               `init` has failed)
--   Node        node/node.cpp
--   Worker      common/worker.cpp, frame/bus.cpp and frame/slave.cpp
--   Proxy       include/tcpServer.hpp and include/tcpClient.hpp: the routing (Proxy), the first line of
--               a server (Proxy/Greeting, Proxy/Sent), who sends a byte (Proxy/Routing), and
--               proxyServer/proxyServer.cpp (Proxy/Main)
--   Common      common/common.cpp
--   Watch       master/master.cpp: a pass of the loop (Watch) and `main` (Watch/Start)
--   SqlGen      sqlGenerate/sqlGen.cpp: the statement (SqlGen), the code and `main` (SqlGen/Code)
--   Frame       frame/master.cpp: the workers (Frame/Processes), the loop (Frame/Serve), the loop
--               with the passes of `scanThread` (Frame/Threads), and `main` (Frame/Main);
--               frame/tools.cpp (Frame/Message) and common/log.cpp (Frame/Log)
--   Tests       the theorems at concrete inputs
--
-- How they interact: a work function (Jobs) asks `curlUtil` (Curl) for the address, reads and writes
-- rows through a table object (Tables), which prepared its statements through Database, and mails
-- through an `EmailSender` (Email, which reads its message through Payload). Keeper registers the work
-- functions with ThreadPool, which runs them; Device registers functions in the same table. `init` of
-- HmLog reads its configuration through File, and its thread writes the log through File; Node
-- starts the log, registers two devices and runs the pool. `tools` (Frame/Message) writes a message that
-- the master (Frame/Serve) reads; the master starts and ends the workers (Frame/Processes).
--
-- State is passed explicitly. What the program calls and does not contain is a parameter: libcurl and
-- mimetic (`Transport`, `Email.Message.Outside`), the MySQL client (`Client`, `Query`, `Server`), the
-- JSON parser, stdio (`Stdio`, which answers from the history of the calls, with the documented
-- effect of its calls on files in `Disk`), and the kernel
-- (`Kernel`, with the documented behaviour of kill and waitpid in `IsPosix`). An undefined read or
-- write is `none` or a result of its own.
--
-- Fuel: `SendMail` has six rounds, one more than the code's bound of five retries, and a transfer
-- has as much as its theorem asks for. The destructor of the log has three passes: one in
-- which the thread starts to wait, one in which it writes, and the one that finds the queue empty. All
-- other loops are structural recursion over what the calls return; `reOpen` recurses on `reTryTime`.
--
-- Not modelled: what the kernel does for sockets and epoll (their results are inputs), sleeping, the
-- texts that the parts log, what a forked worker does (execl), the handler that the printing thread of
-- the log runs when it is cancelled and what others log behind that, include/mailProxy.hpp, which names a
-- variable that it does not declare, and the copies of other projects (raft, include/json.hpp,
-- 3rdparty).
mod Prelude
pub mod Base64
pub mod StdMap
pub mod Database
pub mod Tables
pub mod Curl
pub mod Jobs
pub mod Frame
pub mod Payload
pub mod Email
pub mod File
pub mod ThreadPool
pub mod Device
pub mod HmLog
pub mod Proxy
pub mod MailServer
pub mod Keeper
pub mod Node
pub mod Worker
pub mod Watch
pub mod Common
pub mod SqlGen
pub mod Tests
