-- ===== src/DataModel.antt =====
-- datamodel/block/block.go and datamodel/node/node.go: the metadata of blocks and of nodes.
use juren_cluster.Prelude.{
  ℕ, Bool, true, false, ◌&&◌, ◌≡◌, refl, ◌↔◌, arith, Option, none, some, List, [], ◌∷◌, ◌++◌, Bytes,
  ltb, ◌==◌, if◌then◌else◌,
}
use juren_cluster.Oid.{Oid, oid_eq}
use juren_cluster.Oid.RoundTrip.{oid_eq_iff}

-- Go's `time.Time`: `instant` counts nanoseconds from the zero time. `form` stands for the rest of
-- the value, the location and the monotonic reading, which `After` does not see and
-- `reflect.DeepEqual` does.
pub record Time : Type 0 where
  pub instant : ℕ
  pub form : ℕ

abbrev pub after : Time → Time → Bool
after t u = ltb u.instant t.instant

-- 1 MB
abbrev pub max_block_size : ℕ
max_block_size = 1048576

pub record Block : Type 0 where
  pub oid : Oid
  pub length : ℕ
  pub payload : Bytes

-- `block.Metadata`
pub record Metadata : Type 0 where
  pub oid : Oid
  pub length : ℕ
  pub update_time : Time
  pub is_deleted : Bool

-- `block.ExtendedMedatadata`. The metadata is a pointer, and `none` is nil.
pub record ExtendedMetadata : Type 0 where
  pub sequence_number : ℕ
  pub metadata : Option Metadata

abbrev bool_eq : Bool → Bool → Bool
bool_eq true b = b
bool_eq false true = false
bool_eq false false = true

abbrev time_eq : Time → Time → Bool
time_eq t u = t.instant == u.instant && t.form == u.form

metadata_eq : Metadata → Metadata → Bool
metadata_eq m n =
    oid_eq m.oid n.oid
    && (m.length == n.length
        && (time_eq m.update_time n.update_time && bool_eq m.is_deleted n.is_deleted))

-- `reflect.DeepEqual(&a, &b)`: nil equals nil alone, and two pointers are compared by content.
pub is_metadata_equal : Option Metadata → Option Metadata → Bool
unfolding metadata_eq
is_metadata_equal none none = true
is_metadata_equal none (some n) = false
is_metadata_equal (some m) none = false
is_metadata_equal (some m) (some n) = metadata_eq m n

metadata_eq_iff : (m n : Metadata) → (metadata_eq m n ≡ true) ↔ (m ≡ n)
unfolding metadata_eq
metadata_eq_iff m n =
    (λ h. ground (arith, oid_eq_iff m.oid n.oid), λ h. ground (arith, oid_eq_iff m.oid n.oid))

-- `IsMetadataEqual` of two pointers is true exactly if both are nil or what they point to is
-- equal in all fields.
pub is_metadata_equal_iff : (a b : Option Metadata) → (is_metadata_equal a b ≡ true) ↔ (a ≡ b)
unfolding is_metadata_equal
is_metadata_equal_iff none none = (λ _. refl, λ _. refl)
is_metadata_equal_iff none (some n) = (λ h. cc, λ h. cc)
is_metadata_equal_iff (some m) none = (λ h. cc, λ h. cc)
is_metadata_equal_iff (some m) (some n) =
    (λ h. ground (arith, metadata_eq_iff m n), λ h. ground (arith, metadata_eq_iff m n))

-- `node.Capability`
pub data Capability : Type 0 where
  persistent_storage accepting_blocks : Capability

pub record StorageUsage : Type 0 where
  pub total_bytes : ℕ
  pub used_bytes : ℕ
  pub available_bytes : ℕ

abbrev pub no_usage : StorageUsage
no_usage = record { total_bytes = 0; used_bytes = 0; available_bytes = 0 }

-- `node.Metadata`. The capability map is the list of its keys, each bound to true.
pub record NodeMetadata : Type 0 where
  pub node_id : Oid
  pub addresses : List Bytes
  pub sequence_number : ℕ
  pub last_seen : Time
  pub capabilities : List Capability
  pub storage_usage : StorageUsage

abbrev pub zero_time : Time
zero_time = record { instant = 0; form = 0 }

abbrev capability_eq : Capability → Capability → Bool
capability_eq persistent_storage persistent_storage = true
capability_eq accepting_blocks accepting_blocks = true
capability_eq _ _ = false

pub has_capability : Capability → List Capability → Bool
has_capability c [] = false
has_capability c (d ∷ ds) = if capability_eq c d then true else has_capability c ds

-- A key of the map is set once, however often it is listed.
build_loop : List Capability → List Capability → List Capability
unfolding has_capability
build_loop seen [] = seen
build_loop seen (c ∷ cs) = build_loop (if has_capability c seen then seen else seen ++ c ∷ []) cs

pub build_capability_map : List Capability → List Capability
unfolding build_loop
build_capability_map capabilities = build_loop [] capabilities
