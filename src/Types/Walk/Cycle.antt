-- ===== src/Types/Walk/Cycle.antt =====
-- crates/idakit/src/types/diff/canonical/model.rs: a cycle that passes through no aggregate.
use idakit.Base.{ℕ, zero, suc, Bool, true, false, Option, none, List, [], ◌∷◌, ◌≡◌, refl}
use idakit.Types.Table.{TypeId, TypeTable, get_type, TypeShape, table}
use idakit.Types.Walk.{CanonicalOptions, canon, canonicalize, walk}

-- A table whose only entry is a pointer to itself.
abbrev pub self_pointer : Option ℕ → TypeTable
self_pointer s = table (record { shape = TypeShape.ptr 0; size = s } ∷ []) []

canon-self_pointer :
    (fuel : ℕ) (s : Option ℕ) (opts : CanonicalOptions) (st : List TypeId) (spell : Bool)
    → canon fuel (self_pointer s) opts 0 st spell ≡ none
unfolding canon walk get_type
canon-self_pointer zero s opts st spell = refl
canon-self_pointer (suc fuel) s opts st spell = rw (canon-self_pointer fuel s opts st false)

-- No fuel is enough for a pointer to itself: the stack guards aggregates only.
pub canonicalize-self_pointer :
    (fuel : ℕ) (s : Option ℕ) (opts : CanonicalOptions)
    → canonicalize fuel (self_pointer s) 0 opts ≡ none
unfolding canonicalize
canonicalize-self_pointer fuel s opts = canon-self_pointer fuel s opts [] true
