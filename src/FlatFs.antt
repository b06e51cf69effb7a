-- ===== src/FlatFs.antt =====
-- datastore/flatfs/flatfs.go: the files of the blocks. Its first child, `Files`, is what the code
-- uses of Go's `os` package.
pub mod Files
pub mod Laws
mod Tests
use juren_cluster.Prelude.{
  ℕ, zero, suc, Bool, true, false, not, Option, none, some, List, [], ◌∷◌, ◌++◌, Bytes, length, ltb,
  if◌then◌else◌,
}
use juren_cluster.Outcome.{
  Result, ok, err, panic, stuck, ◌>>=◌, Error, not_found, invalid_argument, already_exists,
  index_out_of_range,
}
use juren_cluster.Oid.{Oid, from_string}
use juren_cluster.DataModel.{Block}
use juren_cluster.FlatFs.Files.{
  FilePath, Entry, dir, file, Fs, stat, mkdir_all, write_file, read_file, remove, Child, read_dir,
  is_not_exist,
}

pub record FlatFs : Type 0 where
  pub base_path : FilePath

-- The two paths of a block: of its directory, and of its file.
pub record BlockPath : Type 0 where
  pub dir_path : FilePath
  pub file_path : FilePath

first_four : Bytes → Result Bytes
first_four (a ∷ b ∷ c ∷ d ∷ rest) = ok (a ∷ b ∷ c ∷ d ∷ [])
first_four _ = panic index_out_of_range

unfoldable pub oid_to_path : FlatFs → Oid → Result BlockPath
unfolding first_four
oid_to_path f oid = do
  prefix ← first_four oid.s
  ok (record { dir_path = prefix ∷ f.base_path; file_path = oid.s ∷ prefix ∷ f.base_path })

made_dir : Fs → FilePath → Result Entry → Fs × Result (Unit {0})
made_dir fs path (ok dir) = (fs, ok tt)
made_dir fs path (ok (file d)) = (fs, err already_exists)
made_dir fs path (err e) = if is_not_exist e then mkdir_all fs path else (fs, err e)
made_dir fs path (panic p) = (fs, panic p)
made_dir fs path stuck = (fs, stuck)

pub ensure_dir : Fs → FilePath → Fs × Result (Unit {0})
unfolding made_dir
ensure_dir fs path = made_dir fs path (stat fs path)

-- A path of the model is a list of names, as `filepath.Clean` leaves them.
pub new : Fs → FilePath → Fs × Result FlatFs
new fs base_path =
    let (fs', r) = ensure_dir fs base_path in
    (fs', r >>= λ _. ok (record { base_path = base_path }))

block_files : List Child → List Oid
block_files [] = []
block_files (c ∷ cs) =
    let rest = block_files cs in
    if c.is_dir then rest else elim (from_string c.name) [
      | ok o ↦ o ∷ rest
      | err e ↦ rest
      | panic p ↦ rest
      | stuck ↦ rest
    ]

shard_files : Result (List Child) → Result (List Oid) → Result (List Oid)
unfolding block_files
shard_files r rest = do files ← r; oids ← rest; ok (block_files files ++ oids)

shards : Fs → FilePath → List Child → Result (List Oid)
unfolding shard_files
shards fs base_path [] = ok []
shards fs base_path (c ∷ cs) =
    let rest = shards fs base_path cs in
    if c.is_dir then shard_files (read_dir fs (c.name ∷ base_path)) rest else rest

pub enumerate : Fs → FlatFs → Result (List Oid)
unfolding shards
enumerate fs f = read_dir fs f.base_path >>= λ children. shards fs f.base_path children

pub get : Fs → FlatFs → Oid → Result Block
get fs f oid = do
  path ← oid_to_path f oid
  content ← read_file fs path.file_path
  ok (record { oid = oid; length = length content; payload = content })

is_there : Result Entry → Result Bool
is_there (ok dir) = ok false
is_there (ok (file d)) = ok true
is_there (err e) = if is_not_exist e then ok false else err e
is_there (panic p) = panic p
is_there stuck = stuck

pub has : Fs → FlatFs → Oid → Result Bool
unfolding is_there
has fs f oid = oid_to_path f oid >>= λ path. is_there (stat fs path.file_path)

write_block : Block → BlockPath → Fs × Result (Unit {0}) → Fs × Result Oid
write_block b path (fs, ok u) =
    let (fs', r) = write_file fs path.file_path b.payload in (fs', r >>= λ _. ok b.oid)
write_block b path (fs, err e) = (fs, err e)
write_block b path (fs, panic p) = (fs, panic p)
write_block b path (fs, stuck) = (fs, stuck)

put_at : Fs → Block → Result BlockPath → Fs × Result Oid
unfolding write_block
put_at fs b (ok path) = write_block b path (ensure_dir fs path.dir_path)
put_at fs b (err e) = (fs, err e)
put_at fs b (panic p) = (fs, panic p)
put_at fs b stuck = (fs, stuck)

-- Where the write fails, the code returns the identifier beside the error.
pub put : Fs → FlatFs → Option Block → Fs × Result Oid
unfolding put_at
put fs f none = (fs, err invalid_argument)
put fs f (some b) = put_at fs b (oid_to_path f b.oid)

removed : Fs × Result (Unit {0}) → Fs × Result (Unit {0})
removed (fs, err e) = (fs, if is_not_exist e then ok tt else err e)
removed (fs, r) = (fs, r)

delete_at : Fs → Result BlockPath → Fs × Result (Unit {0})
unfolding removed
delete_at fs (ok path) = removed (remove fs path.file_path)
delete_at fs (err e) = (fs, err e)
delete_at fs (panic p) = (fs, panic p)
delete_at fs stuck = (fs, stuck)

pub delete : Fs → FlatFs → Oid → Fs × Result (Unit {0})
unfolding delete_at
delete fs f oid = delete_at fs (oid_to_path f oid)
