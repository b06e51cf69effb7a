-- ===== src/Services/Names.antt =====
-- The names of net/crpc/server.go and net/mpubsub/pubsub.go: a service, a dot and a method.
use juren_cluster.Prelude.{
  ◌==◌, true, not, ◌&&◌, Bool, ◌≡◌, ◌≢◌, refl, arith, none, some, [], ◌∷◌, ◌++◌, Bytes,
}
use juren_cluster.Services.{split_at_last_dot, with_rest}

-- A name with no dot in it.
abbrev pub IsPlain : Bytes → Type 0
IsPlain [] = Unit {0}
IsPlain (c ∷ s) = (c ≢ 46) × IsPlain s

abbrev pub is_plain : Bytes → Bool
is_plain [] = true
is_plain (c ∷ s) = not (c == 46) && is_plain s

pub is_plain-IsPlain : (s : Bytes) → is_plain s ≡ true → IsPlain s
is_plain-IsPlain [] e = tt
is_plain-IsPlain (c ∷ s) e = (ground (arith, e), is_plain-IsPlain s (ground (arith, e)))

abbrev pub dotted : Bytes → Bytes → Bytes
dotted service method = service ++ 46 ∷ method

pub split_plain : (method : Bytes) → IsPlain method → split_at_last_dot method ≡ none
unfolding split_at_last_dot with_rest
split_plain [] h = refl
split_plain (c ∷ s) (no_dot, h) = rw (split_plain s h) (ground (arith, no_dot))

pub split_at_last_dot-dotted :
    (service method : Bytes)
    → IsPlain method
    → split_at_last_dot (dotted service method) ≡ some (service, method)
unfolding split_at_last_dot with_rest
split_at_last_dot-dotted [] method h = rw (split_plain method h)
split_at_last_dot-dotted (c ∷ service) method h = rw (split_at_last_dot-dotted service method h)
