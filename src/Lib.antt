-- ===== src/Lib.antt =====
-- A verification library for the hash table with concurrent access, the circular buffer over which its
-- server and clients talk, and the synchronisation primitives below both.
--
-- The program. hashtable.h is a hash table with chaining that grows and shrinks. server.cpp keeps one
-- of strings and answers requests; client.cpp sends them. A request travels through a CircularBuffer
-- (circular_buffer.h) in shared memory, which is built on the mutex and the semaphore of mutex.cpp;
-- the index of its slot is also the index of the slot for the answer (message.h).
--
-- The files.
--   Common: tests, arrays as lists, runs with their faults, texts as codes, conversions of int to
--     size_t, and families of thread states.
--   HashTable: hashtable.h, a function for each member function. Keys is the template parameter
--     with std::hash and ==, Chains a bucket's list, Buckets where entries stand and what a key is
--     bound to, Rehash, Verdict and Resizing the growth policy, Operations the three main operations,
--     Dictionary and Refinement the abstract view, Listing the functions that read whole buckets,
--     Policy constructors, load limits and operator[], Pairs all pairs up to their order. Threads has
--     the calls as steps of any number of threads, with Holding about the locks, Storing and Writing
--     about one bucket, Rehashing about resize, Invariant, Exclusive and Preserved about what is kept,
--     Contents about the pairs, Once and Atomic about calls as events of a dictionary, Gathering and
--     Listings about getKeys and getValues, Progress about deadlocks, Going, Solo, Rounds, Finishing
--     and Completion about the ends of calls, and Inserting and Race about two insertions of one key.
--   Sync: mutex.cpp, with the construction of the primitives in Primitives and the semaphore of macOS
--     in Semaphore.
--   CircularBuffer: circular_buffer.h, a function for each member function and for each part of one
--     between two waits. Shape is the layout, Queue and Fifo the abstract view for one thread,
--     Access the functions that take an index and what blocks when the mutex is stuck, Filling a
--     loop of pushes, Popping a single pop, Threads, Effects and Interleaving any number of threads
--     in push_back and pop.
--   Mailbox: the exchange of requests and responses over the slots of message.h, as steps of any
--     number of clients (client.cpp, sendMsg) and server threads (server.cpp, receiveMsg and the end
--     of respond). Matching is the invariant, Sending, Serving, Receiving and Preserved its
--     preservation by each step, Service what clients get, Failures the exits of the server and the
--     clients that are gone, Construction the constructor and the destructor.
--   Message: message.h, with its byte arrays; Text is what they hold, Copies the assignments.
--   Client: client.cpp, the commands and the making and reading of messages. Commands is about them,
--     Session is the main loop.
--   Server: server.cpp, respond, up to its wait for the response slot. Exchange and Replies are
--     about exchanges with clients, Snapshot about the bucket that it writes into a shared memory
--     segment, Delivery about the handover of a response, Polling about the test for EXIT, Printing
--     about what is printed, Sessions about the main loop of a client with the server, Main, with
--     Startup and Joining, about main. Joining has the end of main as steps, while threads and
--     clients run. Pool has all server threads at work: the steps of Mailbox together with those of
--     HashTable.Threads, which a thread takes for the request that it holds. Tasks and AtWork are
--     about where a thread is in respond, Places about where a request or its response is, Books and
--     Working about what each client has heard, History and Atomic about the order of the calls.
--   A file Examples, Witnesses or Walkthrough has runs and applications of the theorems.
--
-- Conventions. A call returns a Run: a result with the new state, or a Fault for what has no defined
-- behaviour (an index out of range, a division by zero, a read through an end iterator), for
-- std::exit, for a wait that does not end and for a loop that does not end. A size_t is a natural
-- number, with its wrap-around written out. The functions of a hash table are modelled one call at a
-- time, without locks; the steps of Threads are what a call does under the lock of one bucket, to the
-- atomic size, or, in resize, under the lock of the table in write mode; needsResize reads the size in
-- two steps. The two locks of getKeys and getValues on the lock of the table are one step, so that a
-- writer that waits between them, with which the program may deadlock, is not modelled. The blocks of
-- the buffer under its mutex are one step each. In Joining a call of push_back or pop is one step.
-- Steps follow each other in one order: memory is sequentially consistent.
--
-- Bounds. Load factors are exact quotients: the program compares quotients of doubles, which gives the
-- same answers for sizes and capacities below 2 ^ 50. So valid tables have at most 2 ^ 50 buckets, and
-- the theorems ask for at most 2 ^ 48 entries; within these no size_t wraps. The resize loop takes
-- fuel, 4 * size + capacity + 32 rounds: growing at least adds a bucket a round and stops at a
-- capacity below 4 * size + 10, shrinking takes one away, and neither is followed by the other.
--
-- The mailbox. A Step is what one thread does under one mutex; a wait on a condition variable is a
-- premise of the step behind it. A slot carries, besides its flag and its process, the request that
-- its data answers, which the program does not store. CLOSE_SHM requests, which get no response, are
-- in it; the EXIT messages of a shutdown are in Joining. In Delivery a slot is the message that it is,
-- and a wait is given by the contents that its tests see. A message's key and data are lists of bytes;
-- copying more bytes than the array has is a fault, and so is writing or reading past the bytes of a
-- segment that are mapped. In Mailbox every round of the server comes to its end when its slot is
-- free; in Failures respond exits on the requests that a parameter says, after which the server takes
-- no step, and a client that is gone takes none, so that a thread waits for good for the slot that it
-- owns.
--
-- The server threads together. In Pool a thread of the server is the thread of the same number of the
-- table, and a response is the call that it answers with its reply; what READ_BUCKET writes is left to
-- Snapshot. On an index that is not a number respond exits: its thread then takes no step, while the
-- steps of the others still stand for what they did before. What the clients heard, and the order in
-- which the calls happened, is kept for the proofs.
--
-- The surroundings. The system calls, std::stoul, std::to_string, the splitting of a line into words
-- and the contents of uninitialised arrays are parameters: Os for respond, and a Host each for the
-- main functions of client and server. A call of the pthread and semaphore libraries is given by the
-- code that it returns; a mutex whose handle was copied is marked as one that is not live. Whether the
-- buckets of the first table can be allocated is a parameter of main. The main loop of the client
-- takes what becomes of a message as a parameter; in Sessions it is respond. Its input is the lines,
-- each with the value of running at the end of its round, which a SIGINT sets to false. Of what the
-- client prints, the lines of the responses are texts; the greetings and the error messages are left
-- out, and a refused command is one mark.
--
-- Not modelled. The pthread, semaphore and shared memory calls of the operating system, doctest.h,
-- which is a vendored library, the tests and scripts. timeout_exception, which is never thrown. The
-- spawning of the server's threads: in Joining and in Pool they run already.
pub mod Common
pub mod HashTable
pub mod Sync
pub mod CircularBuffer
pub mod Mailbox
pub mod Message
pub mod Client
pub mod Server
