-- ===== src/Clients.antt =====
-- contrib/stat: the programs that read the counters and keep them in files, one for a minute, which
-- are merged to one for an hour, a day, a month and a year.
pub mod Date
pub mod Files
pub mod Merge
