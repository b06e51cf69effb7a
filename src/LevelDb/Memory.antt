-- ===== src/LevelDb/Memory.antt =====
-- A storage in memory that meets `StorageLaws`: it shows that what the indexes of
-- datastore/leveldb assume of goleveldb and cbor can hold, and runs the examples.
use juren_cluster.Prelude.{
  ◌≢◌, ◌≡◌, refl, ap, ◌∙◌, arith, Bool, true, false, Option, none, some, List, [], ◌∷◌, Bytes,
  bytes_eq, bytes_eq_iff, bytes_lt, bytes_lt_total, has_prefix, if◌then◌else◌, inl, inr, Bool-cases,
  lookup, IsBelow, IsBelow-trans, IsSorted, or_else,
}
use juren_cluster.Outcome.{Result, ok, err, not_found, stuck}
use juren_cluster.DataModel.{Time}
use juren_cluster.LevelDb.{
  Storage, StorageLaws, IsReliable, Ends, last_put, written, found, in_range,
}
use juren_cluster.LevelDb.Codec.{
  encode_block, decode_block, encode_node, decode_node, truncated, decode-encode_block,
  decode-encode_node, decode_block-ends, decode_node-ends,
}

abbrev Log : Type 0
Log = List (Bytes × Bytes)

insert : Bytes → Bytes → Log → Log
insert k v [] = (k, v) ∷ []
insert k v ((j, w) ∷ m) =
    let rest = insert k v m in
    if bytes_lt k j then (k, v) ∷ (j, w) ∷ m else if bytes_eq k j then (k, v) ∷ m else (j, w) ∷ rest

-- The log of all writes, the newest first, as a sorted list without what is written over.
sorted : Log → Log
sorted [] = []
sorted ((k, v) ∷ d) = insert k v (sorted d)

keep : (Bytes → Bool) → Log → Log
keep f [] = []
keep f ((k, v) ∷ m) = let rest = keep f m in if f k then (k, v) ∷ rest else rest

push : Log → Log → Log
push [] d = d
push (p ∷ batch) d = push batch (p ∷ d)

or_missing : Option Bytes → Result Bytes
or_missing none = err not_found
or_missing (some v) = ok v

lookup-insert :
    (k v j : Bytes) (m : Log)
    → lookup j (insert k v m) ≡ (if bytes_eq k j then some v else lookup j m)
unfolding lookup insert
lookup-insert k v j [] = refl
lookup-insert k v j ((i, w) ∷ m) =
    ground (arith, bytes_eq_iff k j, bytes_eq_iff k i, bytes_eq_iff i j, lookup-insert k v j m)

insert-IsBelow :
    (i k v : Bytes) (m : Log) → bytes_lt i k ≡ true → IsBelow i m → IsBelow i (insert k v m)
unfolding insert
insert-IsBelow i k v [] h b = (h, tt)
insert-IsBelow i k v ((j, w) ∷ m) h b = ground (arith, insert-IsBelow i k v m h b.1)

insert-IsSorted : (k v : Bytes) (m : Log) → IsSorted m → IsSorted (insert k v m)
unfolding insert
insert-IsSorted k v [] s = (tt, tt)
insert-IsSorted k v ((j, w) ∷ m) s = elim (Bool-cases (bytes_lt k j)) [
  | inl before ↦ rw before ((before, IsBelow-trans k j m before s.0), s)
  | inr after ↦ elim (Bool-cases (bytes_eq k j)) [
    | inl same ↦ let e = (bytes_eq_iff k j).0 same in rw (after, same) (rw e s)
    | inr other ↦
        rw (after, other)
          (insert-IsBelow j k v m (follows after other) s.0, insert-IsSorted k v m s.1)
  ]
]
  where
    follows : bytes_lt k j ≡ false → bytes_eq k j ≡ false → bytes_lt j k ≡ true
    follows a o = elim (Bool-cases (bytes_lt j k)) [
      | inl lt ↦ lt
      | inr ge ↦ absurd (ground (arith, o, bytes_eq_iff k j, bytes_lt_total k j a ge))
    ]

sorted-IsSorted : (d : Log) → IsSorted (sorted d)
unfolding sorted
sorted-IsSorted [] = tt
sorted-IsSorted ((k, v) ∷ d) = insert-IsSorted k v (sorted d) (sorted-IsSorted d)

lookup-sorted : (k : Bytes) (d : Log) → lookup k (sorted d) ≡ lookup k d
unfolding sorted lookup
lookup-sorted k [] = refl
lookup-sorted k ((j, v) ∷ d) = rw (lookup-insert j v k (sorted d), lookup-sorted k d)

keep-IsBelow : (f : Bytes → Bool) (i : Bytes) (m : Log) → IsBelow i m → IsBelow i (keep f m)
unfolding keep
keep-IsBelow f i [] b = tt
keep-IsBelow f i ((k, v) ∷ m) b = ground (arith, keep-IsBelow f i m b.1)

keep-IsSorted : (f : Bytes → Bool) (m : Log) → IsSorted m → IsSorted (keep f m)
unfolding keep
keep-IsSorted f [] s = tt
keep-IsSorted f ((k, v) ∷ m) s = elim (Bool-cases (f k)) [
  | inl kept ↦ rw kept (keep-IsBelow f k m s.0, keep-IsSorted f m s.1)
  | inr gone ↦ rw gone (keep-IsSorted f m s.1)
]

lookup-keep :
    (f : Bytes → Bool) (k : Bytes) (m : Log)
    → lookup k (keep f m) ≡ (if f k then lookup k m else none)
unfolding keep lookup
lookup-keep f k [] = ground arith
lookup-keep f k ((j, v) ∷ m) = elim (Bool-cases (bytes_eq j k)) [
  | inl same ↦ let e = (bytes_eq_iff j k).0 same in ground (arith, same, ap f e, lookup-keep f k m)
  | inr other ↦ ground (arith, other, lookup-keep f k m)
]

lookup-push :
    (batch d : Log) (k : Bytes) → lookup k (push batch d) ≡ or_else (last_put k batch) (lookup k d)
unfolding push lookup
lookup-push [] d k = refl
lookup-push ((j, v) ∷ batch) d k = lookup-push batch ((j, v) ∷ d) k ∙ ground arith

found-or_missing : (o : Option Bytes) → found (or_missing o) ≡ o
unfolding or_missing
found-or_missing none = refl
found-or_missing (some v) = refl

unfoldable pub memory : Storage
unfolding or_missing push keep sorted encode_block decode_block encode_node decode_node insert
memory = record {
  Db = Log;
  get = λ d k. or_missing (lookup k d);
  write = λ d batch. (push batch d, ok tt);
  scan = λ d start limit. keep (in_range start limit) (sorted d);
  scan_prefix = λ d prefix. keep (has_prefix prefix) (sorted d);
  marshal_block = λ em. ok (encode_block em em.metadata);
  unmarshal_block = decode_block;
  marshal_node = λ m. ok (encode_node m);
  unmarshal_node = decode_node;
}

write_lem :
    (o : Option Bytes) (p : Option Bytes) → or_missing (or_else o p) ≡ written o (or_missing p)
unfolding or_missing
write_lem none p = refl
write_lem (some v) p = refl

pub memory_laws : StorageLaws memory
unfolding memory
memory_laws = record {
  get-write = λ d batch k good.
      ap or_missing (lookup-push batch d k) ∙ write_lem (last_put k batch) (lookup k d);
  get-write_failed = λ d batch k bad. absurd (bad refl);
  scan-IsSorted =
      λ d start limit. keep-IsSorted (in_range start limit) (sorted d) (sorted-IsSorted d);
  lookup-scan = λ d start limit k. rw (
    lookup-keep (in_range start limit) k (sorted d),
    lookup-sorted k d,
    found-or_missing (lookup k d),
  );
  scan_prefix-IsSorted =
      λ d prefix. keep-IsSorted (has_prefix prefix) (sorted d) (sorted-IsSorted d);
  lookup-scan_prefix = λ d prefix k. rw (
    lookup-keep (has_prefix prefix) k (sorted d),
    lookup-sorted k d,
    found-or_missing (lookup k d),
  );
  stored_time = truncated;
  stored_time_idem = λ t. ground arith;
  stored_time_mono = λ t u h. omega arith;
  unmarshal-marshal_block = λ n m raw id e. ground (arith, e, decode-encode_block n m id);
  unmarshal-marshal_node = λ m raw id e. ground (arith, e, decode-encode_node m id);
}

pub memory_reliable : IsReliable memory
unfolding memory
memory_reliable = record {
  writes = λ d batch. refl;
  encodes_block = λ em. (encode_block em em.metadata, refl);
  encodes_node = λ m. (encode_node m, refl);
}

-- A time of whole seconds is stored as it is.
pub memory_time : (t : Time) → truncated t ≡ t → memory_laws.stored_time t ≡ t
unfolding memory_laws
memory_time t h = h

-- The storage keeps whole seconds.
pub memory_truncates : (t : Time) → memory_laws.stored_time t ≡ truncated t
unfolding memory_laws
memory_truncates t = refl

or_missing-ends : (o : Option Bytes) → or_missing o ≢ stuck
unfolding or_missing
or_missing-ends none e = cc e
or_missing-ends (some v) e = cc e

pub memory-Ends : Ends memory
unfolding memory
memory-Ends = record {
  get = λ d k. or_missing-ends (lookup k d);
  write = λ d batch e. cc e;
  marshal_block = λ em e. cc e;
  unmarshal_block = decode_block-ends;
  marshal_node = λ m e. cc e;
  unmarshal_node = decode_node-ends;
}
