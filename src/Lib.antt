-- ===== src/Lib.antt =====
-- A verification of programs of this repository, a collection of systems programs in C. Each
-- program stands alone, but for the vector library, on which the document of the text editor
-- stands, the server, which takes its socket loops from common.c, and the mappers and reducers,
-- which are joined by the text between them. Clib holds what they call of the C library, written
-- out or as an interface.
--
--   vector/vector.c                    Vector: the heap block is a list of cells (Cells), the doubling
--                                      loop is in Capacity, the struct and its operations in Defs.
--   vector/sstring.c                   Vector/Sstring
--   text_editor/document.c             TextEditor/Document: the struct and the line operations in
--                                      Defs, the file operations in File.
--   text_editor/editor.c               TextEditor/Editor: the loops on typed text in Escapes, the
--                                      commands in Defs.
--   critical_concurrency/semamore.c    Concurrency/Semamore
--   critical_concurrency/barrier.c     Concurrency/Barrier
--   critical_concurrency/rendezvous.c  Concurrency/Rendezvous: the two threads as steps.
--   critical_concurrency/queue.c       Concurrency/Queue: the heap of nodes, the functions and the
--                                      steps in Defs.
--   extreme_edge_cases/camelCaser.c    CamelCaser: the loops in Defs.
--   mapreduce/splitter.c               MapReduce/Splitter
--   mapreduce/core/libds.c             MapReduce/Core/Datastore
--   mapreduce/core/mapper.c, mapreduce/mappers/
--                                      MapReduce/Core/Mapper
--   mapreduce/core/reducer.c, mapreduce/core/utils.c, mapreduce/reducers/sum.c
--                                      MapReduce/Core/Reducer
--   nonstop_networking/common.c        Networking/Sockets: reader and writer.
--   nonstop_networking/server.c        Networking/Header: from the first byte of a request to its
--                                      verb and file name; Networking/Get: the answer to a GET;
--                                      Networking/Put, Networking/List, Networking/Delete: the
--                                      answers to a PUT, a LIST and a DELETE, with write_err.
--   finding_filesystems/minixfs.c      FileSystem: the inodes and blocks in Disk; Read, Virtual, Write
--                                      and Nodes (chmod, chown) for the functions.
--   ideal_indirection/mmu.c            Mmu: the state and reads in Defs; Write; Process.
--   malloc/alloc.c                     Allocator: the operations in Defs.
--   mini_valgrind/mini_valgrind.c      MiniValgrind: the operations in Defs.
--   savvy_scheduler/libscheduler.c     Scheduler: the comparers in Comparers, the rest in Defs.
--
-- Functions keep their names in C, without the prefix `vector_`; `put` is vector_set. A function
-- that changes a struct returns the changed struct, and `none` is undefined behaviour or a failed
-- assertion. Numbers of type size_t are natural numbers with the wrap-around at 2^64 written out.
-- The callbacks of the vector are parameters, and its destructor calls are logged. Allocation
-- succeeds, but in MiniValgrind, where the results of malloc and realloc are arguments. A function
-- on a monitor is one step up to its end or its next wait, and the states that an interleaving of
-- threads reaches are given by an inductive relation. The kernel is a list of events, one for each
-- call of read(2) or write(2); an exhausted list means EAGAIN. The queue of the scheduler and the
-- arithmetic of double are records of operations with the laws that are relied on.
--
-- Fuel: double_until runs with 65 rounds, enough for every capacity below 2^64 to be reached by
-- doubling; read_lines with one round more than there are bytes, since a line takes a byte; the
-- loop of get_header with 263 rounds less the bytes stored, where it gives up; the loop of
-- handle_get with any number; the loops of camel_caser with one round more than the sentence has
-- bytes; those of the mappers and the reducer with one round more than the text has bytes; the loop
-- of put with any number above the bytes that are not read; the loop of list with one round; those
-- of mini_free, mini_realloc and malloc with more than there are blocks. Where a loop runs out of fuel
-- its result is `none`, in list `out_of_fuel`, and a theorem about the result shows that it is not.
--
-- Not modelled: the dispatch of the server and its client; the creation of files in minixfs; the
-- program that starts the mappers and reducers, parmake, the shell, the password
-- cracker and the chat room, each a program of its own; the exercises, which mostly print or start
-- processes; processes, signals, sockets and directories, which are the kernel's.
pub mod Allocator
pub mod Base
pub mod CamelCaser
pub mod Clib
pub mod Concurrency
pub mod FileSystem
pub mod MapReduce
pub mod MiniValgrind
pub mod Mmu
pub mod Networking
pub mod Scheduler
pub mod TextEditor
pub mod Vector
