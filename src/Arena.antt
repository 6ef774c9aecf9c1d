-- ===== src/Arena.antt =====
-- crates/idakit/src/arena.rs: the append-only arena. A handle is its raw index.
pub mod Laws
use idakit.Base.{
  ℕ, ◌^◌, Bool, Option, none, some, List, [], ◌∷◌, ◌++◌, length, get_elem?, set, ltb, if◌then◌else◌,
}

abbrev pub Idx : Type 0
Idx = ℕ

module _ {ℓ} {A : Type ℓ} where
  -- `Arena::alloc`: `none` is the panic of `Idx::from_index` on a position past 32 bits.
  unfoldable pub alloc : A → List A → Option (Idx × List A)
  alloc x a = if ltb (length a) (2 ^ 32) then some (length a, a ++ (x ∷ [])) else none

  -- `Index` and `IndexMut`, by which the arena is read and an entry is replaced; an index out of
  -- range panics in the source.
  unfoldable pub get : List A → Idx → Option A
  get a i = get_elem? a i

  unfoldable pub put : List A → Idx → A → Option (List A)
  put a i x = if ltb i (length a) then some (set a i x) else none
