-- ===== src/Commands.antt =====
-- commands/init.go and commands/info.go: the commands of the program that end by themselves.
use juren_cluster.Prelude.{ℕ, false, Option, none, some, List, [], ◌∷◌, Bytes}
use juren_cluster.Outcome.{Result, ok, err, panic, stuck, Error, Panic, nil_dereference}
use juren_cluster.Oid.{Oid, zero_oid, encode, oid_type_raw_block}
use juren_cluster.DataModel.{Time, Metadata, ExtendedMetadata}
use juren_cluster.LevelDb.{Storage}
use juren_cluster.BlockIndex
use juren_cluster.BlockIndex.{BlockIndex}
use juren_cluster.NodeIndex
use juren_cluster.NodeIndex.{NodeIndex}
use juren_cluster.Node.Handlers.{log_nodes}
use juren_cluster.Config.{Config}
use juren_cluster.Config.File.{Host, save}

-- How a command ends: the process by `log.Fatalf`, the goroutine by a panic or not at all, or the
-- command, with what it has logged.
pub data Ending (Log : Type 0) : Type 0 where
  fatal : Error → Ending Log
  panicked : Panic → Ending Log
  hung : Ending Log
  ended : Log → Ending Log

saved : {Files : Type 0} → Files × Result (Unit {0}) → Files × Ending (Unit {0})
saved (files, ok u) = (files, ended tt)
saved (files, err e) = (files, fatal e)
saved (files, panic p) = (files, panicked p)
saved (files, stuck) = (files, hung)

pub run_init : (h : Host) → Config → h.Files → h.Files × Ending (Unit {0})
unfolding saved
run_init h cfg files = saved (save h cfg files)

-- The lines for nodes, with their first addresses, and for blocks.
pub record Lines : Type 0 where
  pub nodes : List (Oid × Bytes)
  pub blocks : List (ℕ × Metadata)

no_lines : Lines
no_lines = record { nodes = []; blocks = [] }

with_metadata : ℕ → Option Metadata → Ending (List (ℕ × Metadata)) → Ending (List (ℕ × Metadata))
with_metadata n none rest = panicked nil_dereference
with_metadata n (some m) (ended lines) = ended ((n, m) ∷ lines)
with_metadata n (some m) rest = rest

block_lines : List ExtendedMetadata → Ending (List (ℕ × Metadata))
unfolding with_metadata
block_lines [] = ended []
block_lines (block ∷ blocks) =
    with_metadata block.sequence_number block.metadata (block_lines blocks)

with_nodes : List (Oid × Bytes) → Ending (List (ℕ × Metadata)) → Ending Lines
with_nodes nodes (ended blocks) = ended (record { nodes = nodes; blocks = blocks })
with_nodes nodes (fatal e) = fatal e
with_nodes nodes (panicked p) = panicked p
with_nodes nodes hung = hung

module _ (S : Storage) where
  list_blocks : List (Oid × Bytes) → Result (List ExtendedMetadata) → Ending Lines
  unfolding block_lines with_nodes
  list_blocks nodes (ok blocks) = with_nodes nodes (block_lines blocks)
  list_blocks nodes (err e) = ended (record { nodes = nodes; blocks = [] })
  list_blocks nodes (panic p) = panicked p
  list_blocks nodes stuck = hung

  list_nodes : BlockIndex S → Result (List (Oid × Bytes)) → Ending Lines
  unfolding list_blocks
  list_nodes bidx (ok nodes) = list_blocks nodes (BlockIndex.enumerate S bidx)
  list_nodes bidx (err e) = fatal e
  list_nodes bidx (panic p) = panicked p
  list_nodes bidx stuck = hung

  enumerated : BlockIndex S → NodeIndex S → Result (List Oid) → Ending Lines
  unfolding list_nodes no_lines
  enumerated bidx nidx (ok ids) = list_nodes bidx (log_nodes S nidx ids)
  enumerated bidx nidx (err e) = ended no_lines
  enumerated bidx nidx (panic p) = panicked p
  enumerated bidx nidx stuck = hung

  after_put : NodeIndex S → BlockIndex S × Result ExtendedMetadata → BlockIndex S × Ending Lines
  unfolding enumerated
  after_put nidx (bidx, ok md) = (bidx, enumerated bidx nidx (NodeIndex.enumerate S nidx))
  after_put nidx (bidx, err e) = (bidx, fatal e)
  after_put nidx (bidx, panic p) = (bidx, panicked p)
  after_put nidx (bidx, stuck) = (bidx, hung)

  -- The block that the command records; the hash is that of "test2".
  abbrev test_block : Oid → Time → ExtendedMetadata
  test_block o now = record {
    sequence_number = 0;
    metadata = some (record { oid = o; length = 10; update_time = now; is_deleted = false });
  }

  -- `Encode` gives no error.
  test_oid : Result Oid → Oid
  test_oid (ok o) = o
  test_oid _ = zero_oid

  with_indexes :
      Bytes
      → Time
      → Result (BlockIndex S)
      → Result (NodeIndex S)
      → Option (BlockIndex S) × Ending Lines
  unfolding after_put test_oid
  with_indexes hash now (ok bidx) (ok nidx) =
      let (bidx', ending) =
        after_put nidx
          (BlockIndex.put S bidx (test_block (test_oid (encode oid_type_raw_block hash)) now)) in
      (some bidx', ending)
  with_indexes hash now (ok bidx) (err e) = (some bidx, fatal e)
  with_indexes hash now (ok bidx) (panic p) = (some bidx, panicked p)
  with_indexes hash now (ok bidx) stuck = (some bidx, hung)
  with_indexes hash now (err e) nidx = (none, fatal e)
  with_indexes hash now (panic p) nidx = (none, panicked p)
  with_indexes hash now stuck nidx = (none, hung)

  -- The arguments are what `initLevelDb` gives for the two paths.
  pub run_info : Bytes → Time → Result S.Db → Result S.Db → Option (BlockIndex S) × Ending Lines
  unfolding with_indexes
  run_info hash now blocks nodes =
      with_indexes hash now (BlockIndex.new_block_index S blocks) (NodeIndex.new_node_index S nodes)
