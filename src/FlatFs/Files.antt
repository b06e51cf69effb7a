-- ===== src/FlatFs/Files.antt =====
-- The part of Go's `os` package that datastore/flatfs/flatfs.go uses, on a tree of files. A path
-- is the list of its names, the last one first, from a directory that is always there.
pub mod Paths
use juren_cluster.Prelude.{
  ℕ, zero, suc, ◌≡◌, ◌<◌, refl, arith, Bool, true, false, not, ◌&&◌, Option, none, some, List, [],
  ◌∷◌, Bytes, bytes_eq, bytes_eq_iff, bytes_eq_refl, bytes_lt, length, ◌==◌, if◌then◌else◌, ◌↔◌,
  inl, inr, Bool-cases,
}
use juren_cluster.Outcome.{Result, ok, err, panic, stuck, ◌>>=◌, Error, not_found, io_error}

abbrev pub FilePath : Type 0
FilePath = List Bytes

pub data Entry : Type 0 where
  dir : Entry
  file : Bytes → Entry

-- The entries, each path once, and where the system refuses access.
pub record Fs : Type 0 where
  pub entries : List (FilePath × Entry)
  pub denied : FilePath → Bool

-- EACCES, ENOTDIR, EISDIR and ENOTEMPTY
abbrev pub permission_denied : Error
permission_denied = io_error 13

abbrev pub not_a_directory : Error
not_a_directory = io_error 20

abbrev pub is_a_directory : Error
is_a_directory = io_error 21

abbrev pub directory_not_empty : Error
directory_not_empty = io_error 39

abbrev pub is_not_exist : Error → Bool
is_not_exist not_found = true
is_not_exist _ = false

unfoldable pub path_eq : FilePath → FilePath → Bool
path_eq [] [] = true
path_eq [] (n ∷ q) = false
path_eq (n ∷ p) [] = false
path_eq (m ∷ p) (n ∷ q) = bytes_eq m n && path_eq p q

unfoldable pub entry_at : FilePath → List (FilePath × Entry) → Result Entry
entry_at p [] = err not_found
entry_at p ((q, e) ∷ es) = let rest = entry_at p es in if path_eq q p then ok e else rest

unfoldable pub without : FilePath → List (FilePath × Entry) → List (FilePath × Entry)
without p [] = []
without p ((q, e) ∷ es) = let rest = without p es in if path_eq p q then rest else (q, e) ∷ rest

unfoldable pub below : Fs → FilePath → Result Entry → Result Entry
below fs p (ok dir) = if fs.denied p then err permission_denied else entry_at p fs.entries
below fs p (ok (file d)) = err not_a_directory
below fs p (err e) = err e
below fs p (panic x) = panic x
below fs p stuck = stuck

-- `os.Stat`
unfoldable pub stat : Fs → FilePath → Result Entry
unfolding below
stat fs [] = ok dir
stat fs (name ∷ parent) = below fs (name ∷ parent) (stat fs parent)

abbrev pub set_entry : Fs → FilePath → Entry → Fs
set_entry fs p e = record fs { entries = (p, e) ∷ without p fs.entries }

unfoldable pub make_dir : Fs → FilePath → Result Entry → Fs × Result (Unit {0})
make_dir fs p (ok dir) = (fs, ok tt)
make_dir fs p (ok (file d)) = (fs, err not_a_directory)
make_dir fs p (err e) = if is_not_exist e then (set_entry fs p dir, ok tt) else (fs, err e)
make_dir fs p (panic x) = (fs, panic x)
make_dir fs p stuck = (fs, stuck)

-- `os.MkdirAll`
unfoldable pub mkdir_all : Fs → FilePath → Fs × Result (Unit {0})
unfolding make_dir
mkdir_all fs [] = (fs, ok tt)
mkdir_all fs (name ∷ parent) =
    let (fs', r) = mkdir_all fs parent in
    elim r [
      | ok u ↦ make_dir fs' (name ∷ parent) (stat fs' (name ∷ parent))
      | err e ↦ (fs', err e)
      | panic p ↦ (fs', panic p)
      | stuck ↦ (fs', stuck)
    ]

unfoldable pub write_over :
    Fs → FilePath → Bytes → Result Entry → Result Entry → Fs × Result (Unit {0})
write_over fs p content (ok dir) (ok dir) = (fs, err is_a_directory)
write_over fs p content (ok dir) (ok (file d)) = (set_entry fs p (file content), ok tt)
write_over fs p content (ok dir) (err e) =
    if is_not_exist e then (set_entry fs p (file content), ok tt) else (fs, err e)
write_over fs p content (ok dir) (panic x) = (fs, panic x)
write_over fs p content (ok dir) stuck = (fs, stuck)
write_over fs p content (ok (file d)) there = (fs, err not_a_directory)
write_over fs p content (err e) there = (fs, err e)
write_over fs p content (panic x) there = (fs, panic x)
write_over fs p content stuck there = (fs, stuck)

-- `os.WriteFile`: what is at the parent, then what is at the path.
unfoldable pub write_file : Fs → FilePath → Bytes → Fs × Result (Unit {0})
unfolding write_over
write_file fs [] content = (fs, err is_a_directory)
write_file fs (name ∷ parent) content =
    write_over fs (name ∷ parent) content (stat fs parent) (stat fs (name ∷ parent))

content_of : Entry → Result Bytes
content_of dir = err is_a_directory
content_of (file d) = ok d

-- `os.ReadFile`
unfoldable pub read_file : Fs → FilePath → Result Bytes
unfolding content_of
read_file fs p = stat fs p >>= λ e. content_of e

-- One entry of a directory.
pub record Child : Type 0 where
  pub name : Bytes
  pub is_dir : Bool

is_dir_entry : Entry → Bool
is_dir_entry dir = true
is_dir_entry (file d) = false

children : FilePath → List (FilePath × Entry) → List Child
unfolding is_dir_entry
children p [] = []
children p (([], e) ∷ es) = children p es
children p ((name ∷ parent, e) ∷ es) =
    let rest = children p es in
    if path_eq parent p then record { name = name; is_dir = is_dir_entry e } ∷ rest else rest

insert : Child → List Child → List Child
insert c [] = c ∷ []
insert c (d ∷ ds) =
    let rest = insert c ds in if bytes_lt d.name c.name then d ∷ rest else c ∷ d ∷ ds

by_name : List Child → List Child
unfolding insert
by_name [] = []
by_name (c ∷ cs) = insert c (by_name cs)

-- `os.ReadDir`, in the order of the names
pub read_dir : Fs → FilePath → Result (List Child)
unfolding by_name children
read_dir fs p = stat fs p >>= λ e. elim e [
  | dir ↦ ok (by_name (children p fs.entries))
  | file d ↦ err not_a_directory
]

unfoldable pub removed_at : Fs → FilePath → Result Entry → Fs × Result (Unit {0})
unfolding children
removed_at fs p (ok (file d)) = (record fs { entries = without p fs.entries }, ok tt)
removed_at fs p (ok dir) =
    if length (children p fs.entries) == 0
    then (record fs { entries = without p fs.entries }, ok tt)
    else (fs, err directory_not_empty)
removed_at fs p (err e) = (fs, err e)
removed_at fs p (panic x) = (fs, panic x)
removed_at fs p stuck = (fs, stuck)

-- `os.Remove`
unfoldable pub remove : Fs → FilePath → Fs × Result (Unit {0})
unfolding removed_at
remove fs p = removed_at fs p (stat fs p)
