-- ===== src/FlatFs/Laws.antt =====
-- The block store of datastore/flatfs/flatfs.go as a map from identifiers.
use juren_cluster.Prelude.{◌≡◌, refl, true, false, some, ◌∷◌, Bytes, length, inl, inr, Bool-cases}
use juren_cluster.Outcome.{Result, Error, ok, err, panic, stuck, ◌>>=◌, not_found}
use juren_cluster.Oid.{Oid}
use juren_cluster.DataModel.{Block}
use juren_cluster.FlatFs.Files.{file, Fs, stat, write_file, remove, is_not_exist}
use juren_cluster.FlatFs.Files.Paths.{
  stat-write_file, stat-remove, stat-remove_missing, read_file_ok,
}
use juren_cluster.FlatFs.{
  FlatFs, BlockPath, first_four, oid_to_path, ensure_dir, get, has, is_there, put, put_at,
  write_block, delete, delete_at, removed,
}

module _ (f : FlatFs) where
  -- A block that is there: `Get` gives it, and `Has` says so.
  pub record IsKept (fs : Fs) (b : Block) : Type 0 where
    pub got :
        get fs f b.oid ≡ ok (record { oid = b.oid; length = length b.payload; payload = b.payload })
    pub had : has fs f b.oid ≡ ok true

  stat-IsKept :
      (fs : Fs) (b : Block) (path : BlockPath)
      → oid_to_path f b.oid ≡ ok path
      → stat fs path.file_path ≡ ok (file b.payload)
      → IsKept fs b
  unfolding get has is_there
  stat-IsKept fs b path where_to there = record {
    got = rw (where_to, read_file_ok fs path.file_path b.payload there);
    had = rw (where_to, there);
  }

  -- The file of a block lies in its directory.
  file_path_lem :
      (o : Oid) (path : BlockPath)
      → oid_to_path f o ≡ ok path
      → path.file_path ≡ o.s ∷ path.dir_path
  unfolding oid_to_path
  file_path_lem o path e = shape (first_four o.s) e
    where
      shape :
          (r : Result Bytes)
          → (r >>= λ prefix.
              ok (record {
                dir_path = prefix ∷ f.base_path;
                file_path = o.s ∷ prefix ∷ f.base_path;
              }))
            ≡ ok path
          → path.file_path ≡ o.s ∷ path.dir_path
      shape (ok prefix) h = cc h
      shape r h = absurd (cc h)

  written_file :
      (fs : Fs) (b : Block) (path : BlockPath)
      → path.file_path ≡ b.oid.s ∷ path.dir_path
      → (write_file fs path.file_path b.payload).1 ≡ ok tt
      → stat (write_file fs path.file_path b.payload).0 path.file_path ≡ ok (file b.payload)
  written_file fs b path shape done =
      rw shape (stat-write_file fs b.oid.s path.dir_path b.payload (rw shape at done))

  write_block-IsKept :
      (b : Block) (path : BlockPath) (w : Fs × Result (Unit {0})) (o : Oid)
      → oid_to_path f b.oid ≡ ok path
      → (write_block b path w).1 ≡ ok o
      → IsKept (write_block b path w).0 b
  unfolding write_block
  write_block-IsKept b path (fs, ok u) o where_to done =
      stat-IsKept _ b path where_to
        (written_file fs b path (file_path_lem b.oid path where_to) (succeeded _ done))
    where
      succeeded : (r : Result (Unit {0})) → (r >>= λ _. ok b.oid) ≡ ok o → r ≡ ok tt
      succeeded (ok tt) h = refl
      succeeded (err e) h = absurd (cc h)
      succeeded (panic p) h = absurd (cc h)
      succeeded stuck h = absurd (cc h)
  write_block-IsKept b path (fs, err e) o where_to done = absurd (cc done)
  write_block-IsKept b path (fs, panic e) o where_to done = absurd (cc done)
  write_block-IsKept b path (fs, stuck) o where_to done = absurd (cc done)

  put_at-IsKept :
      (fs : Fs) (b : Block) (r : Result BlockPath) (o : Oid)
      → oid_to_path f b.oid ≡ r
      → (put_at fs b r).1 ≡ ok o
      → IsKept (put_at fs b r).0 b
  unfolding put_at
  put_at-IsKept fs b (ok path) o e done =
      write_block-IsKept b path (ensure_dir fs path.dir_path) o e done
  put_at-IsKept fs b r o e done = absurd (cc done)

  -- After a `Put` of a block that succeeds, in whatever state of the file system, `Get` of its
  -- identifier gives its identifier, its data and their length, and `Has` says that it is there.
  pub put-IsKept :
      (fs : Fs) (b : Block) (o : Oid)
      → (put fs f (some b)).1 ≡ ok o
      → IsKept (put fs f (some b)).0 b
  unfolding put
  put-IsKept fs b o done = put_at-IsKept fs b _ o refl done

  removed_file :
      (o : Oid) (path : BlockPath) (w : Fs × Result (Unit {0}))
      → (w.1 ≡ ok tt → stat w.0 path.file_path ≡ err not_found)
      → ((e : Error)
          → w.1 ≡ err e
          → is_not_exist e ≡ true
          → stat w.0 path.file_path ≡ err not_found)
      → (removed w).1 ≡ ok tt
      → stat (removed w).0 path.file_path ≡ err not_found
  unfolding removed
  removed_file o path (fs, ok tt) gone missing done = gone refl
  removed_file o path (fs, err e) gone missing done = elim (Bool-cases (is_not_exist e)) [
    | inl not_there ↦ missing e refl not_there
    | inr other ↦ absurd (let done' = rw other at done in cc done')
  ]
  removed_file o path (fs, panic p) gone missing done = absurd (cc done)
  removed_file o path (fs, stuck) gone missing done = absurd (cc done)

  gone_at :
      (fs : Fs) (o : Oid) (path : BlockPath)
      → path.file_path ≡ o.s ∷ path.dir_path
      → (removed (remove fs path.file_path)).1 ≡ ok tt
      → stat (removed (remove fs path.file_path)).0 path.file_path ≡ err not_found
  gone_at fs o path shape done =
      removed_file o path (remove fs path.file_path)
        (λ good. rw shape (stat-remove fs o.s path.dir_path (rw shape at good)))
        (λ e failed missing.
          rw shape (stat-remove_missing fs o.s path.dir_path e (rw shape at failed) missing))
        done

  delete_at-has :
      (fs : Fs) (o : Oid) (r : Result BlockPath)
      → oid_to_path f o ≡ r
      → (delete_at fs r).1 ≡ ok tt
      → has (delete_at fs r).0 f o ≡ ok false
  unfolding delete_at has is_there
  delete_at-has fs o (ok path) e done = rw (e, gone_at fs o path (file_path_lem o path e) done)
  delete_at-has fs o r e done = absurd (cc done)

  -- After a `Delete` that succeeds, in whatever state of the file system and whether the block
  -- was there or not, `Has` says that it is not there.
  pub has-delete :
      (fs : Fs) (o : Oid) → (delete fs f o).1 ≡ ok tt → has (delete fs f o).0 f o ≡ ok false
  unfolding delete
  has-delete fs o done = delete_at-has fs o _ refl done
