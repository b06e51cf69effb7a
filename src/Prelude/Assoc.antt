-- ===== src/Prelude/Assoc.antt =====
-- Association lists keyed by byte strings, and those sorted by their keys.
use mathlib.Core.Path.{◌≡◌, refl}
use mathlib.Core.Bool.{true}
use mathlib.Core.Option.{Option, none, some}
use mathlib.Core.List.{List, [], ◌∷◌, ◌++◌}
use native.Mathlib.Omega.{arith}
use juren_cluster.Prelude.Tests.{if◌then◌else◌, Bool-cases}
use mathlib.Core.Logic.{inl, inr}
use juren_cluster.Prelude.Lists.{All}
use juren_cluster.Prelude.ByteStrings.{
  Bytes, bytes_eq, bytes_eq_iff, bytes_eq_refl, bytes_lt, bytes_lt_irrefl, bytes_lt_trans,
  bytes_lt_total,
}

abbrev pub or_else {ℓ} : {A : Type ℓ} → Option A → Option A → Option A
or_else none y = y
or_else (some x) y = some x

module _ {ℓ} {V : Type ℓ} where
  unfoldable pub lookup : Bytes → List (Bytes × V) → Option V
  lookup k [] = none
  lookup k ((j, v) ∷ m) = if bytes_eq j k then some v else lookup k m

  lookup-nil : (k : Bytes) → lookup k [] ≡ none
  unfolding lookup
  lookup-nil k = refl

  pub lookup-append :
      (k : Bytes) (xs ys : List (Bytes × V))
      → lookup k (xs ++ ys) ≡ or_else (lookup k xs) (lookup k ys)
  unfolding lookup
  lookup-append k [] ys = refl
  lookup-append k ((j, v) ∷ xs) ys = ground (arith, lookup-append k xs ys)

  -- Every key of the list comes after `k`.
  abbrev pub IsBelow : Bytes → List (Bytes × V) → Type 0
  IsBelow k m = All (λ (p : Bytes × V). bytes_lt k p.0 ≡ true) m

  abbrev pub IsSorted : List (Bytes × V) → Type 0
  IsSorted [] = Unit {0}
  IsSorted ((k, v) ∷ m) = IsBelow k m × IsSorted m

  pub lookup-IsBelow : (k : Bytes) (m : List (Bytes × V)) → IsBelow k m → lookup k m ≡ none
  unfolding lookup
  lookup-IsBelow k [] h = refl
  lookup-IsBelow k ((j, v) ∷ m) h =
      ground (arith, bytes_eq_iff j k, bytes_lt_irrefl k, lookup-IsBelow k m)

  pub IsBelow-trans :
      (j k : Bytes) (m : List (Bytes × V)) → bytes_lt j k ≡ true → IsBelow k m → IsBelow j m
  IsBelow-trans j k [] h b = tt
  IsBelow-trans j k ((i, v) ∷ m) h b = (bytes_lt_trans j k i h b.0, IsBelow-trans j k m h b.1)

  IsBelow-append :
      (k : Bytes) (xs ys : List (Bytes × V)) → IsBelow k xs → IsBelow k ys → IsBelow k (xs ++ ys)
  IsBelow-append k [] ys hx hy = hy
  IsBelow-append k (p ∷ xs) ys hx hy = (hx.0, IsBelow-append k xs ys hx.1 hy)

  -- Two sorted lists are joined to a sorted one, if each key of the first comes before the second.
  pub IsSorted-append :
      (xs ys : List (Bytes × V))
      → IsSorted xs
      → IsSorted ys
      → All (λ (p : Bytes × V). IsBelow p.0 ys) xs
      → IsSorted (xs ++ ys)
  IsSorted-append [] ys hx hy b = hy
  IsSorted-append ((k, v) ∷ xs) ys hx hy b =
      (IsBelow-append k xs ys hx.0 b.0, IsSorted-append xs ys hx.1 hy b.1)

  lookup_head : (k : Bytes) (v : V) (m : List (Bytes × V)) → lookup k ((k, v) ∷ m) ≡ some v
  unfolding lookup
  lookup_head k v m = rw bytes_eq_refl

  lookup_tail :
      (j k : Bytes) (v : V) (m : List (Bytes × V))
      → IsBelow k m
      → lookup j m ≡ (if bytes_eq k j then none else lookup j ((k, v) ∷ m))
  unfolding lookup
  lookup_tail j k v m b = ground (arith, bytes_eq_iff k j, lookup-IsBelow k m b)

  heads_eq :
      (k j : Bytes) (v w : V) (xs ys : List (Bytes × V))
      → IsBelow k xs
      → lookup k ((k, v) ∷ xs) ≡ lookup k ((j, w) ∷ ys)
      → IsBelow j ys
      → lookup j ((k, v) ∷ xs) ≡ lookup j ((j, w) ∷ ys)
      → (k ≡ j) × (v ≡ w)
  heads_eq k j v w xs ys bx hk by hj = elim (Bool-cases (bytes_lt k j)) [
    | inl lt ↦
        cc (lookup_head k v xs, hk, lookup-IsBelow k ((j, w) ∷ ys) (lt, IsBelow-trans k j ys lt by))
    | inr ge ↦ elim (Bool-cases (bytes_lt j k)) [
      | inl lt ↦
          cc (
            lookup_head j w ys,
            hj,
            lookup-IsBelow j ((k, v) ∷ xs) (lt, IsBelow-trans j k xs lt bx),
          )
      | inr le ↦
          let e = bytes_lt_total k j ge le in
          ground (arith, e, lookup_head k v xs, lookup_head j w ys)
    ]
  ]

  -- A sorted list is determined by what its keys are bound to.
  pub IsSorted-ext :
      (xs ys : List (Bytes × V))
      → IsSorted xs
      → IsSorted ys
      → ((k : Bytes) → lookup k xs ≡ lookup k ys)
      → xs ≡ ys
  IsSorted-ext [] [] hx hy h = refl
  IsSorted-ext [] ((j, w) ∷ ys) hx hy h = cc (h j, lookup_head j w ys, lookup-nil j)
  IsSorted-ext ((k, v) ∷ xs) [] hx hy h = cc (h k, lookup_head k v xs, lookup-nil k)
  IsSorted-ext ((k, v) ∷ xs) ((j, w) ∷ ys) hx hy h =
      let e = heads_eq k j v w xs ys hx.0 (h k) hy.0 (h j) in
      let tails =
        IsSorted-ext xs ys hx.1 hy.1
          (λ i. ground (arith, e, h i, lookup_tail i k v xs hx.0, lookup_tail i j w ys hy.0)) in
      ground (arith, e, tails)
