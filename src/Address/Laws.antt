-- ===== src/Address/Laws.antt =====
-- crates/idakit/src/address.rs: an address is never the sentinel.
use idakit.Base.{ℕ, ◌+◌, ◌^◌, ◌<◌, ◌≤◌, true, none, some, ◌≡◌, ◌↔◌, arith}
use idakit.Address.{
  Address, address, bit_not, try_new, get, min, saturating_add, advance, distance_to, less, max_ea,
  bad_address,
}

-- A stored niche: non-zero, in 64 bits.
abbrev pub IsAddress : Address → Type 0
IsAddress a = (0 < a.niche) × (a.niche < 2 ^ 64)

-- Wrapping a 64-bit value fails exactly on the sentinel; otherwise the address reads as the value.
pub try_new-get :
    (raw : ℕ)
    → raw < 2 ^ 64
    → ((try_new raw ≡ none) ↔ (raw ≡ bad_address))
      × ((a : Address) → try_new raw ≡ some a → IsAddress a × (get a ≡ raw))
unfolding try_new get
try_new-get raw h = ground arith

-- Advancing a valid address by a 64-bit count never panics: it gives the sum, or the greatest address where the sum is
-- above it; the distance back is what was advanced, unless it was cut off.
pub advance_lem :
    (a : Address) (bytes : ℕ)
    → IsAddress a
    → bytes < 2 ^ 64
    → (b : Address) × (advance a bytes ≡ some b)
      × IsAddress b
      × (get b ≡ min (get a + bytes) max_ea)
      × (get a + bytes ≤ max_ea → distance_to a b ≡ bytes)
unfolding advance distance_to
advance_lem a bytes h k =
    let c : ℕ = min (saturating_add (get a) bytes) max_ea in
    (address (bit_not c), ground arith, ground arith, ground arith, ground arith)

-- The order of two valid addresses is that of their raw values, opposite to that of what is stored.
pub less-niche :
    (a b : Address) → IsAddress a → IsAddress b → (less a b ≡ true) ↔ (b.niche < a.niche)
unfolding less
less-niche a b h k = ground arith
