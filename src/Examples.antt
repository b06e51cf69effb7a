-- ===== src/Examples.antt =====
-- The data of the tests: identifiers, a storage in memory, and block indexes
-- (datastore/leveldb/blockindex.go) with one row and with none.
use juren_cluster.Prelude.{
  ℕ, zero, suc, ◌≡◌, ◌≢◌, ◌<◌, refl, ap, ◌∙◌, arith, false, some, [], ◌∷◌, Bytes, length, All,
  lookup,
}
use juren_cluster.Outcome.{ok}
use juren_cluster.Oid.{Oid}
use juren_cluster.Oid.Base32Laws.{IsByte}
use juren_cluster.Oid.RoundTrip.{IsOid, oid_of}
use juren_cluster.DataModel.{Time, Metadata, NodeMetadata, no_usage}
use juren_cluster.LevelDb.Keys.{key_from_block_oid, key_from_seq}
use juren_cluster.LevelDb.Memory.{memory, memory_laws, memory_time}
use juren_cluster.LevelDb.Codec.{encode_block}
use juren_cluster.BlockIndex.{BlockIndex}
use juren_cluster.BlockIndex.Journal.{Rows, entry, contents}
use juren_cluster.BlockIndex.Represents.{Represents}
use juren_cluster.BlockIndex.Reopen.{empty-Represents}
use juren_cluster.NodeIndex.{NodeIndex}
use juren_cluster.Tracker.{new_tracker}
use juren_cluster.Node.{Node}

unfoldable pub repeat : ℕ → ℕ → Bytes
repeat zero k = []
repeat (suc n) k = k ∷ repeat n k

pub length-repeat : (n k : ℕ) → length (repeat n k) ≡ n
unfolding repeat
length-repeat zero k = refl
length-repeat (suc n) k = ground (arith, length-repeat n k)

pub repeat-IsByte : (n k : ℕ) → k < 256 → All IsByte (repeat n k)
unfolding repeat
repeat-IsByte zero k h = tt
repeat-IsByte (suc n) k h = (h, repeat-IsByte n k h)

abbrev pub example_oid : ℕ → ℕ → Oid
example_oid kind k = oid_of kind (repeat 32 k)

pub example_oid-IsOid : (kind k : ℕ) → kind < 256 → k < 256 → IsOid (example_oid kind k)
example_oid-IsOid kind k h b = record {
  kind = kind;
  hash = repeat 32 k;
  kind_byte = h;
  hash_size = length-repeat 32 k;
  hash_bytes = repeat-IsByte 32 k b;
  fields = refl;
}

abbrev pub block_a : Oid
block_a = example_oid 8 1

abbrev pub block_b : Oid
block_b = example_oid 8 2

abbrev pub node_a : Oid
node_a = example_oid 104 3

abbrev pub node_b : Oid
node_b = example_oid 104 4

pub block_a-IsOid : IsOid block_a
block_a-IsOid = example_oid-IsOid 8 1 (omega arith) (omega arith)

pub block_b-IsOid : IsOid block_b
block_b-IsOid = example_oid-IsOid 8 2 (omega arith) (omega arith)

pub node_a-IsOid : IsOid node_a
node_a-IsOid = example_oid-IsOid 104 3 (omega arith) (omega arith)

pub node_b-IsOid : IsOid node_b
node_b-IsOid = example_oid-IsOid 104 4 (omega arith) (omega arith)

-- The metadata of a block, at a time of whole seconds.
abbrev pub metadata_a : Metadata
metadata_a = record {
  oid = block_a;
  length = 10;
  update_time = record { instant = 5000000000; form = 0 };
  is_deleted = false;
}

abbrev pub no_rows : BlockIndex memory
unfolding memory
no_rows = record { db = []; seq = 0 }

pub no_rows-Represents : Represents memory memory_laws no_rows []
unfolding memory lookup
no_rows-Represents = empty-Represents memory memory_laws [] (λ k. refl)

abbrev pub rows_a : Rows
rows_a =
    record { meta = metadata_a; raw = encode_block (entry 1 metadata_a) (some metadata_a) } ∷ []

abbrev pub one_row : BlockIndex memory
unfolding memory
one_row = record {
  db =
      (key_from_seq 1, encode_block (entry 1 metadata_a) (some metadata_a))
      ∷ (key_from_block_oid block_a, encode_block (entry 1 metadata_a) (some metadata_a))
      ∷ [];
  seq = 1;
}

pub whole : memory_laws.stored_time metadata_a.update_time ≡ metadata_a.update_time
whole = memory_time metadata_a.update_time refl

pub one_row-Represents : Represents memory memory_laws one_row rows_a
unfolding memory lookup contents
one_row-Represents = record {
  seq_ok = refl;
  bounded = omega arith;
  contents_ok = λ k. ground arith;
  decodes = (
    memory_laws.unmarshal-marshal_block 1 metadata_a _ block_a-IsOid refl
        ∙ ap (λ (t : Time). ok (entry 1 (record metadata_a { update_time = t }))) whole,
    block_a-IsOid,
    whole,
    tt,
  );
}

abbrev pub node_metadata_a : NodeMetadata
node_metadata_a = record {
  node_id = node_a;
  addresses = (49 ∷ []) ∷ [];
  sequence_number = 1;
  last_seen = record { instant = 7000000000; form = 0 };
  capabilities = [];
  storage_usage = no_usage;
}

abbrev pub no_nodes : NodeIndex memory
unfolding memory
no_nodes = record { db = [] }

-- A node with one row, and a node with none.
abbrev pub peer : Node memory
peer = record {
  node_id = node_a;
  addresses = (49 ∷ []) ∷ [];
  block_index = one_row;
  node_index = no_nodes;
  who_has_block = new_tracker;
}

abbrev pub newcomer : Node memory
newcomer = record {
  node_id = node_b;
  addresses = (50 ∷ []) ∷ [];
  block_index = no_rows;
  node_index = no_nodes;
  who_has_block = new_tracker;
}

pub node_a-ne_node_b : node_a ≢ node_b
unfolding oid_of repeat
node_a-ne_node_b e = cc e
