-- ===== src/Services/Collected.antt =====
-- The loop over the methods of a type, in `suitableMethods` of net/crpc/server.go and
-- `suitableHandlers` of net/mpubsub/pubsub.go: what is found in the map it makes.
use juren_cluster.Prelude.{
  ◌≡◌, ◌≢◌, refl, sym, ap, ◌∙◌, arith, Option, none, some, List, [], ◌∷◌, Bytes, bytes_eq_iff, All,
  ◌↔◌,
}
use juren_cluster.Services.{Method, find, added, collected}

module _ {F : Type 0} where
  -- No method of a list has a name.
  abbrev NotNamed : Bytes → List (Method F) → Type 0
  NotNamed name [] = Unit {0}
  NotNamed name (m ∷ ms) = (m.name ≢ name) × NotNamed name ms

  -- The methods of a type have distinct names.
  abbrev pub HasDistinctNames : List (Method F) → Type 0
  HasDistinctNames [] = Unit {0}
  HasDistinctNames (m ∷ ms) = NotNamed m.name ms × HasDistinctNames ms

module _ {F T : Type 0} (suitable : Method F → Option T) where
  find-added :
      (name other : Bytes) (o : Option (T)) (methods : List (Bytes × T))
      → name ≢ other
      → find other (added suitable name o methods) ≡ find other methods
  unfolding find added
  find-added name other none methods ne = refl
  find-added name other (some mt) methods ne = ground (arith, ne, bytes_eq_iff name other)

  find-NotNamed :
      (name : Bytes) (ms : List (Method F))
      → NotNamed name ms
      → find name (collected suitable ms) ≡ none
  unfolding collected added
  find-NotNamed name [] h = unfold find in refl
  find-NotNamed name (m ∷ ms) (ne, h) =
      find-added m.name name (suitable m) (collected suitable ms) ne ∙ find-NotNamed name ms h

  find_same :
      (name : Bytes) (o : Option (T)) (methods : List (Bytes × T))
      → find name methods ≡ none
      → find name (added suitable name o methods) ≡ o
  unfolding find added
  find_same name none methods missing = missing
  find_same name (some mt) methods missing = rw ((bytes_eq_iff name name).1 refl)

  -- Every method is found as far as it is suitable.
  abbrev pub IsFound : List (Bytes × T) → Method F → Type 0
  IsFound methods m = find m.name methods ≡ suitable m

  kept_by :
      (m : Method F) (methods : List (Bytes × T)) (ms : List (Method F))
      → NotNamed m.name ms
      → All (IsFound methods) ms
      → All (IsFound (added suitable m.name (suitable m) methods)) ms
  kept_by m methods [] h all = tt
  kept_by m methods (n ∷ ms) (ne, h) (this, all) = (
    find-added m.name n.name (suitable m) methods (λ e. ne (sym e)) ∙ this,
    kept_by m methods ms h all,
  )

  pub collected-IsFound :
      (ms : List (Method F)) → HasDistinctNames ms → All (IsFound (collected suitable ms)) ms
  unfolding collected added
  collected-IsFound [] h = tt
  collected-IsFound (m ∷ ms) (fresh, h) = (
    find_same m.name (suitable m) (collected suitable ms) (find-NotNamed m.name ms fresh),
    kept_by m (collected suitable ms) ms fresh (collected-IsFound ms h),
  )

-- A rule for suitable methods that the turn of the loop decides.
module _ {F T : Type 0} (suitable : Method F → Option T) (Suits : Method F → T → Type 0)
    (sound : (m : Method F) (t : T) → suitable m ≡ some t → Suits m t)
    (complete : (m : Method F) (t : T) → Suits m t → suitable m ≡ some t) where
  pub found_methods :
      (methods : List (Bytes × T)) (ms : List (Method F))
      → All (IsFound suitable methods) ms
      → All (λ m. (t : T) → (find m.name methods ≡ some t) ↔ Suits m t) ms
  found_methods methods [] h = tt
  found_methods methods (m ∷ ms) (this, h) = (
    (λ t. (λ e. sound m t (sym this ∙ e), λ s. this ∙ complete m t s)),
    found_methods methods ms h,
  )

module _ {F T : Type 0} (suitable : Method F → Option T) (Suits : Method F → T → Type 0)
    (complete : (m : Method F) (t : T) → Suits m t → suitable m ≡ some t) where
  pub none_suitable :
      (methods : List (Bytes × T)) (ms : List (Method F))
      → methods ≡ []
      → All (IsFound suitable methods) ms
      → All (λ m. (t : T) → ¬ Suits m t) ms
  unfolding find
  none_suitable methods [] empty h = tt
  none_suitable methods (m ∷ ms) empty (this, h) =
      (λ t s. cc (ap (find m.name) empty, this, complete m t s), none_suitable methods ms empty h)
