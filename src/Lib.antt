-- ===== src/Lib.antt =====
-- A file storage server (src/server/, src/common/) and the library of its clients (src/api/,
-- src/client/). Clients send requests over a socket; worker threads read them, call the operations
-- on the stored files and answer; a client that waits for a lock is answered by the notifier
-- thread later. The model follows the C code function by function, with its names.
--
-- Base: shared names, lists over native numbers, circular buffers (Base/Ring), the endings of a
--   piece of C code (Base/Endings: it returns, makes an access that C does not define, exits, or
--   runs on).
-- Caching: src/server/src/caching.c. Caching/State has the ring of file pointers with its counters
--   and the loops that both policies share, Caching/Fifo and Caching/Lru the handlers,
--   Caching/Policy the choice between them. A file is its pointer, a number; its length is read
--   through a function. The loops that go round the ring have the size of the ring as fuel: a
--   search meets every file in one round. Caching/Valid has the invariant and the list of the
--   files from the oldest on, which the theorems speak of; Caching/Moves, Insertion, Removal,
--   Usage, Plan and Edit are the proofs.
-- Session: src/server/src/session.c, the descriptors of a client.
-- Files: src/server/src/files.c. Files/Entry has a file as its buffer with two offsets into it,
--   Files/Waiting the entry of the hash table with the ring of requests that wait for its lock,
--   Files/State the table, the memory and the sessions, Files/Locks the locking functions and
--   Files/Operations the functions that the rest of the server calls. They all run under the
--   table's lock, so that each is one step from a state to a state; only
--   filesystem_get_n_fileEntry does not take it. The queue loops have the length of the queue as
--   fuel. Files/Waiting/Fifo shows the ring as a list, Files/Locks/Abstract is a lock without
--   table and ring, which Files/Locks/Refine compares with the code, Files/Entry/Layout tells
--   where path and content are in a buffer.
-- Service: src/server/src/operations.c, in Service/Body the handler worker_body of
--   src/server/src/worker.c with the answer that it writes, and in Service/Notifier the answer of
--   worker_notify.
-- Wire: src/common/src/comunication.c; Wire/Requests has writeMessage of src/api/src/api.c and the
--   parser of src/server/src/request.c, Wire/Arrival readMessage of src/server/src/worker.c,
--   Wire/Replies writeMessage of worker.c and readMessage of api.c. What the system calls read and
--   write return is a list of events, which the functions take. An int is its pattern of 32 bits.
-- Queue: src/server/src/intqueue.c and requestqueue.c, as one queue over the type of its items. A
--   call is one step; a call that has to wait is not possible yet.
--
-- Threads: the loops of src/server/src/main.c and worker.c. Threads/State is what the threads share
--   with the place where each of them is, Threads/Select the turns of thread_select,
--   Threads/Workers those of the workers, Threads/Steps the relation of one step, in which the
--   threads interleave; the pipe is a list of whole messages. The call of worker_body is one step,
--   since each operation on the files runs under the table's lock, and the return from it another,
--   before which the other threads may have seen what it has done. Threads/Owned is the invariant,
--   Threads/Reachable what holds in every reachable state. Files/Asked and Service/Asked count the
--   requests that the queues of files.c keep, Threads/Waiting the clients who wait for them.
--
-- Settings: src/server/src/args.c. Settings/Scanning has the loop over the configuration file with
--   the two formats of fscanf that it uses, Settings/Startup the rest of handleConfiguration. The
--   loop is on fuel: one step a line is enough.
--
-- The programs of the clients stand on these.
-- Strings, Vector: src/common/src/mystring.c and stringutils.c, with what they use of strtok and
--   strtol, and src/common/include/vector.h. The other parts take a vector as a list. The loop
--   that splits has the length of the string as fuel, since each token takes a byte.
-- Api: the calls of src/api/src/api.c, Api/Saving writeResultsToFile of src/common/src/fileutils.c,
--   Api/Connection openConnection and closeConnection. What the system calls do on the socket, and
--   the time, are lists that the functions take. Api/Served, Api/Written and Api/Notified put client and
--   server together.
-- Client: src/client/src/. Client/Options is the parser of the arguments, which takes getopt as a
--   parameter, and a bound on the calls of it as fuel, Client/Directories expandRequests,
--   Client/Sending handleSmallWFlag on a tree of directory entries, Client/Running the switch of
--   main, Client/Main the whole of it; the last three note the calls of the library (Client/Calls),
--   whose success is a parameter.
--
-- Not modelled: the signal handlers, threadExit and the setup of src/server/src/main.c; the help and
-- the sleeps in main of the client; readFromFile and the writing of the disk, which are
-- input and output; logging; the wrappers of allocation and locking. The limits of the system
-- (SOMAXCONN, FD_SETSIZE, PATH_MAX) are parameters of the start, and PATH_MAX is 4096 in the client.
-- Freeing of memory is left out, so that a double free does not show. Paths are bytes without the
-- NUL. A length field of a message that is negative counts as a number beyond the buffer, and a message
-- of 2147483647 bytes is read as any other, where the code's msgSize + 1 overflows. In caching.c the
-- sum of an edit is checked against the range of an int; the counters of files and of activations are
-- not, nor is the size where the code subtracts from it.
pub mod Api
pub mod Base
pub mod Caching
pub mod Client
pub mod Files
pub mod Queue
pub mod Service
pub mod Session
pub mod Settings
pub mod Strings
pub mod Threads
pub mod Vector
pub mod Wire
