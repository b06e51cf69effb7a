-- ===== src/LevelDb/Tests.antt =====
-- The keys of datastore/leveldb/leveldb.go on concrete numbers.
use juren_cluster.Prelude.{◌≡◌, arith, true, bytes_lt}
use juren_cluster.Outcome.{ok}
use juren_cluster.LevelDb.Keys.{key_from_seq, seq_from_key}
use juren_cluster.LevelDb.KeyOrder.{lt-key_from_seq, seq_from_key-key_from_seq}

lt-key_from_seq_example : bytes_lt (key_from_seq 15) (key_from_seq 256) ≡ true
lt-key_from_seq_example = lt-key_from_seq 15 256 (omega arith) (omega arith)

seq_from_key-key_from_seq_example : seq_from_key (key_from_seq 255) ≡ ok 255
seq_from_key-key_from_seq_example = seq_from_key-key_from_seq 255 (omega arith)
