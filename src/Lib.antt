-- ===== src/Lib.antt =====
-- Verified models of the programs in cpp_projects_Learning, a collection of C and C++ exercises.
-- The programs are independent of each other; each top module here models one of them.
--
-- Serialize models cpp-serialize/DataStream.h, a byte stream that values are written to and read
-- from. `Serialize` holds the buffer, its growth (`reserve`) and raw access; `Scalars` the
-- overloads of `write` and `read` on bool, char, the integers, float, double and string, and the
-- operators << and >>; `Containers` those on vector, list, set and map; `Rounds` the function
-- `display` and what a round of its loop does, and `Display` what it prints. The proofs about what
-- a writer appends and a reader takes are in `Codec`, and the round trips in `RoundTrip`,
-- `Sequences` and `Ordered`. A member function is a function from the stream to a value and the new
-- stream; `none` is undefined behaviour. A byte is a number below 256, and integers and
-- floating-point numbers are their bit patterns, since the code only copies them; memory is
-- little-endian. The loop of `reserve` runs on fuel 33: it doubles the capacity, which passes 2 ^
-- 30 after 31 rounds, and 2 ^ 30 bytes is the bound under which no `int` overflows. The position is
-- a number that is not negative; its overflow is not modelled. The source reads numbers through
-- pointers into the buffer at any position. That is undefined in C++ where the position is
-- misaligned; the model is of a machine and a compiler that allow unaligned access, and says
-- nothing of others. Writing and reading no bytes at the end of the buffer, as with an empty
-- string, is undefined in the model too. An element type of a container is given by its two
-- overloads, and their laws are a record, `Codec`.
--
-- ThreadPool models ThreadPool_C_C++/C/threadPool.c. `ThreadPool` holds the pool and what a worker,
-- the manager or a caller does in one critical section; `System` lets the sections of all threads
-- follow each other in any order; `Ring` is about the queue of tasks, `Counters` about the numbers
-- of threads, `Kept` and `Slots` about what the moves keep, `Safety` about all of them. A section
-- is one move, since the mutex keeps the others out; the accesses of the source without the mutex,
-- such as the manager's test of `shutdown` before it sleeps, are moves of their own. The loop of
-- `threadDestroy`, which changes only the entry of its own thread, is one of them. After the
-- shutdown `threadPoolAdd` goes on without the mutex; its statements there are one move too, so a
-- race between two such callers is not modelled. An access behind the end of `threadIDs` or
-- `taskQ`, or a division by the capacity 0, has no move: it is `none`, and for `threadPoolAdd` the
-- result `undefined`. A wait may end without a signal, so signals need no model. The ids of threads
-- are not given out twice, since no thread is joined or detached. Not modelled: the memory that
-- `threadPoolDestroy` frees, and a `pthread_create` that fails.
--
-- EpollServer models epoll/main.c: the table of connections (`g_events`), the functions that change
-- its entries, the three callbacks, and the two loops of `main`. What accept, fcntl, recv, send and
-- time return is an argument, and the calls that the server makes are recorded. A pointer to an
-- entry is its index. Printing, and the result of epoll_ctl, which is only printed, are left out.
--
-- Vector models vector/version03/vector.cpp, a reimplementation of std::vector. `Vector` holds the
-- block of memory, whose slots are raw, hold an element or hold one that was moved from, and the
-- functions of the standard library that the class calls on it; `Class` the class itself. What a
-- call does is an outcome: it returns, throws, or is undefined. Elements are values whose
-- constructors do not throw, an iterator is its distance from `begin()`, and the allocator's
-- `max_size` is an argument. `Layout` and `Shift` say what the library's functions do to a block;
-- `Contents` says when a vector holds a list of elements, and `Growth`, `Insert`, `Erase`,
-- `Resize`, `Assign` and `Copy` what each member function makes of that list; `Operations` has the
-- calls as data, and what a sequence of them does. Not modelled: arguments that refer to an element
-- of the vector itself. An exception of `allocate` inside copy assignment leaves the vector in a
-- state that is not modelled.
--
-- LookupTable models the table of the file threadsafe_look_up.cpp in the directory of chapter six:
-- a vector of buckets, each a list of entries. An operation locks the one bucket that it uses for
-- all of its work, so it is one step. `Buckets` is about one bucket, `Values` about the table. The
-- hasher and the == of the keys are arguments; the theorems take it that == is equality. Not
-- modelled: get_map. Neither get_map nor `find_entry_for`, which returns an iterator of a const
-- list, compiles when it is used; the model of `find_entry_for` returns the iterator that is meant.
--
-- LinkedList models list/list.inl, a doubly linked list, with the nodes of list/node.h in memory.
-- `LinkedList` has the memory, a function from addresses to nodes: a deleted node is not there, and
-- an access to it is undefined (`none`). `Class` has the member functions; the addresses that `new`
-- returns are arguments, an iterator is its pointer, and an `int` is a number. `Chain` says when
-- nodes stand in memory linked both ways, and when a list object has these nodes (`IsList`); `Join`
-- joins chains; `Ends`, `Removal`, `Assign`, `Erase`, `Insert`, `Turn`, `Resize` and `Grow` what
-- the functions do to the nodes, and that they leave the rest of the memory alone; `Dangling` and
-- `Range` are about the functions that leave or read a pointer to a deleted node. `clear`, `find`
-- and `reserve` run on fuel `m_size`, the number of nodes, and `resize` on one more; `erase(first,
-- last)` takes any, and its result tells running out of fuel, an undefined `erase(it)` and an
-- unreadable next node apart. `new` may return the address of a deleted node. Not modelled: the
-- iterators. `remove` and `swap` are defined without a theorem of their own.
--
-- IniFile models ini-parse/inifile.cpp: values, sections, and the file object with `load`, `str`
-- and `save`. A string is the list of its characters, a `std::map` the list of its entries in the
-- order of the keys, and a file its text, or nothing when it cannot be opened. `Trim` is about
-- lines and `trim`, `Map` about the lists that stand for maps, `RoundTrip` about `load` behind
-- `save`, `Access` about `get` and `has`. Not modelled: the conversions from and to numbers, and
-- printing.
--
-- SpinLock models the file of the spin lock in the directory compare_exchange_weak_cpp: the class
-- `SpinLock`, and threads that run `worker`. `SpinLock` has the moves of a thread and runs of any
-- number of threads in any order; `Exclusion` the invariant.
--
-- ConnectPool models mysql_connect_pool/src/connectPool.cpp, and the time stamps of
-- mysql_connect_pool/src/databaseConnect.cpp: the queue of connections, and the producer, the
-- recycler and the callers, whose sections under the mutex are moves in any order. `Places` is
-- about where connections are, `Recycle` about what the recycler deletes. What the clock shows, in
-- nanoseconds, is an argument. Not modelled: the configuration file and the MySQL client.
pub mod Common
pub mod Serialize
pub mod ThreadPool
pub mod EpollServer
pub mod Vector
pub mod LookupTable
pub mod LinkedList
pub mod IniFile
pub mod SpinLock
pub mod ConnectPool
