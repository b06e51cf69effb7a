-- ===== src/Outcome.antt =====
-- Go's (value, error) results. `panic` is a run-time panic of the goroutine, and `stuck` is no Go
-- outcome: a loop of the model ran out of fuel.
use juren_cluster.Prelude.{ℕ, List}

pub data Error : Type 0 where
  -- what the store of keys answers for a missing key, and any other failure of it
  not_found : Error
  io_error : ℕ → Error
  -- an encoder or a decoder of messages failed
  encode_error : Error
  decode_error : Error
  -- `ErrCorrupted`
  corrupted : Error
  -- `oid.ErrorInvalidOidString`, `oid.ErrorInvalidOidFormat`, `base32.CorruptInputError`
  invalid_oid_string : Error
  invalid_oid_format : Error
  corrupt_input : Error
  -- `seqFromKey` and `EnumerateBySeq`
  invalid_key_length : Error
  invalid_key_prefix : Error
  expected_integer : Error
  invalid_range : Error
  -- the node
  sequence_regressed : Error
  connect_failed : Error
  sync_failed : Error
  put_block_failed : Error
  put_node_failed : Error
  publish_failed : Error
  lookup_timeout : Error
  deadline_exceeded : Error
  no_addresses : Error
  -- `Register` of net/crpc/server.go
  no_service_name : Error
  type_not_exported : Error
  no_suitable_methods : Error
  service_defined : Error
  -- `errors.ErrUnsupported`, `os.ErrInvalid`, `os.ErrExist`, `ErrShutdown`
  unsupported : Error
  invalid_argument : Error
  already_exists : Error
  shut_down : Error
  -- `ServerError` of net/crpc/client.go
  server_error : List ℕ → Error

pub data Panic : Type 0 where
  nil_dereference index_out_of_range argument_mismatch : Panic

pub data Result {ℓ} (A : Type ℓ) : Type ℓ where
  ok : A → Result A
  err : Error → Result A
  panic : Panic → Result A
  stuck : Result A

infixl 5 ◌>>=◌
abbrev pub ◌>>=◌ {ℓ κ} : {A : Type ℓ} {B : Type κ} → Result A → (A → Result B) → Result B
ok a >>= f = f a
err e >>= f = err e
panic p >>= f = panic p
stuck >>= f = stuck
