-- ===== src/FlatFs/Tests.antt =====
-- The block store of datastore/flatfs/flatfs.go on one block.
use juren_cluster.Prelude.{◌≡◌, refl, false, some, [], ◌∷◌, bytes_eq}
use juren_cluster.Outcome.{ok}
use juren_cluster.Oid.{Oid}
use juren_cluster.DataModel.{Block}
use juren_cluster.FlatFs.Files.{
  Fs, path_eq, entry_at, without, below, stat, make_dir, mkdir_all, write_over, write_file,
  removed_at, remove,
}
use juren_cluster.FlatFs.{
  FlatFs, oid_to_path, first_four, made_dir, ensure_dir, has, put, put_at, write_block, delete,
  delete_at, removed,
}
use juren_cluster.FlatFs.Laws.{IsKept, put-IsKept, has-delete}

abbrev store : FlatFs
store = record { base_path = [] }

abbrev empty_fs : Fs
empty_fs = record { entries = []; denied = λ p. false }

abbrev some_oid : Oid
some_oid = record { b = []; t = 8; s = 98 ∷ 97 ∷ 98 ∷ 97 ∷ 99 ∷ [] }

abbrev some_block : Block
some_block = record { oid = some_oid; length = 2; payload = 1 ∷ 2 ∷ [] }

succeeds : (put empty_fs store (some some_block)).1 ≡ ok some_oid
unfolding put put_at write_block oid_to_path first_four ensure_dir made_dir stat below entry_at
    mkdir_all make_dir write_file write_over path_eq without bytes_eq
succeeds = refl

put-IsKept_example : IsKept store (put empty_fs store (some some_block)).0 some_block
put-IsKept_example = put-IsKept store empty_fs some_block some_oid succeeds

deleted : (delete (put empty_fs store (some some_block)).0 store some_oid).1 ≡ ok tt
unfolding put put_at write_block oid_to_path first_four ensure_dir made_dir stat below entry_at
    mkdir_all make_dir write_file write_over path_eq without bytes_eq delete delete_at removed
    remove removed_at
deleted = refl

has-delete_example :
    has (delete (put empty_fs store (some some_block)).0 store some_oid).0 store some_oid ≡ ok false
has-delete_example = has-delete store (put empty_fs store (some some_block)).0 some_oid deleted
