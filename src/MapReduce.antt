-- ===== src/MapReduce.antt =====
-- mapreduce: the splitter that cuts the input into portions (splitter.c).
pub mod Splitter
pub mod Core
mod Examples
