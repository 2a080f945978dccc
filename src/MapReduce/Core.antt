-- ===== src/MapReduce/Core.antt =====
-- mapreduce/core, mapreduce/mappers and mapreduce/reducers: the programs that mapreduce.c connects.
-- A program reads all bytes of its standard input and writes bytes to its standard output.
pub mod Datastore
pub mod Mapper
pub mod Reducer
pub mod Composed
