-- ===== src/Services.antt =====
-- What net/crpc/server.go and net/mpubsub/pubsub.go do alike: they register the methods of a Go
-- value by name, and find one again from a text with a dot. The types are those of Go's `reflect`.
pub mod Names
pub mod Collected
use juren_cluster.Prelude.{
  ℕ, Bool, true, false, ◌&&◌, ◌||◌, Option, none, some, List, [], ◌∷◌, Bytes, bytes_eq, leb, ◌==◌,
  length, if◌then◌else◌,
}

-- `reflect.Type`: a pointer to a type, or a type with its name and the path of its package.
pub data GoType : Type 0 where
  pointer : GoType → GoType
  named : Bytes → Bytes → GoType

unfoldable pub type_eq : GoType → GoType → Bool
type_eq (pointer t) (pointer u) = type_eq t u
type_eq (pointer t) (named n p) = false
type_eq (named n p) (pointer u) = false
type_eq (named n p) (named m q) = bytes_eq n m && bytes_eq p q

abbrev pub is_pointer : GoType → Bool
is_pointer (pointer t) = true
is_pointer (named name pkg_path) = false

-- `reflect.Indirect(v).Type()`, and `Name` of a type.
abbrev pub indirect : GoType → GoType
indirect (pointer t) = t
indirect (named name pkg_path) = named name pkg_path

abbrev pub type_name : GoType → Bytes
type_name (pointer t) = []
type_name (named name pkg_path) = name

-- `token.IsExported`, of names in ASCII
unfoldable pub is_exported : Bytes → Bool
is_exported [] = false
is_exported (c ∷ name) = leb 65 c && leb c 90

-- `isExportedOrBuiltinType`
unfoldable pub is_exported_or_builtin_type : GoType → Bool
is_exported_or_builtin_type (pointer t) = is_exported_or_builtin_type t
is_exported_or_builtin_type (named name pkg_path) = is_exported name || length pkg_path == 0

-- `reflect.Method`: the inputs begin with the receiver, and `func` is what a call does.
pub record Method (F : Type 0) : Type 0 where
  pub name : Bytes
  pub exported : Bool
  pub inputs : List GoType
  pub outputs : List GoType
  pub func : F

-- A value to register: its type, and the methods of the type, each name once.
pub record Receiver (F : Type 0) : Type 0 where
  pub typ : GoType
  pub methods : List (Method F)

abbrev dot : ℕ
dot = 46

with_rest : ℕ → Bytes → Option (Bytes × Bytes) → Option (Bytes × Bytes)
with_rest c s (some (before, after)) = some (c ∷ before, after)
with_rest c s none = if c == dot then some ([], s) else none

-- `strings.LastIndex(s, ".")`, with the parts before and after the dot.
unfoldable pub split_at_last_dot : Bytes → Option (Bytes × Bytes)
unfolding with_rest
split_at_last_dot [] = none
split_at_last_dot (c ∷ s) = with_rest c s (split_at_last_dot s)

-- A Go map from names, which the code fills and reads.
module _ {V : Type 0} where
  unfoldable pub find : Bytes → List (Bytes × V) → Option V
  find name [] = none
  find name ((n, v) ∷ entries) = if bytes_eq n name then some v else find name entries

-- The loop over the methods of a type, for the map of the suitable ones. `suitable` is its turn.
module _ {F T : Type 0} (suitable : Method F → Option T) where
  unfoldable pub added : Bytes → Option T → List (Bytes × T) → List (Bytes × T)
  added name none methods = methods
  added name (some t) methods = (name, t) ∷ methods

  unfoldable pub collected : List (Method F) → List (Bytes × T)
  unfolding added
  collected [] = []
  collected (m ∷ ms) = added m.name (suitable m) (collected ms)
