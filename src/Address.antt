-- ===== src/Address.antt =====
-- crates/idakit/src/address.rs: the validated address, which is stored inverted.
pub mod Laws
use idakit.Base.{ℕ, ◌+◌, ◌-◌, ◌^◌, Bool, true, false, Option, none, some, if◌then◌else◌, ◌==◌, ltb}

-- `BADADDR` of the SDK, with all 64 bits set, and `MAX_EA`.
abbrev pub bad_address : ℕ
bad_address = 2 ^ 64 - 1

abbrev pub max_ea : ℕ
max_ea = bad_address - 1

-- `!raw` on 64 bits.
unfoldable pub bit_not : ℕ → ℕ
bit_not raw = 2 ^ 64 - 1 - raw

-- The niche: what is stored is `!raw`.
pub record Address : Type 0 where
  pub niche : ℕ

abbrev pub address : ℕ → Address
address n = record { niche = n }

-- `Address::try_new`: `NonZeroU64::new(!raw)`.
unfoldable pub try_new : ℕ → Option Address
unfolding bit_not
try_new raw = if bit_not raw == 0 then none else some (address (bit_not raw))

-- `Address::get`.
unfoldable pub get : Address → ℕ
unfolding bit_not
get a = bit_not a.niche

abbrev pub min : ℕ → ℕ → ℕ
min a b = if ltb b a then b else a

-- `u64::saturating_add`.
abbrev pub saturating_add : ℕ → ℕ → ℕ
saturating_add a b = min (a + b) (2 ^ 64 - 1)

-- `impl Add<u64>`: `none` where `expect` panics.
unfoldable pub advance : Address → ℕ → Option Address
unfolding try_new get
advance a bytes = try_new (min (saturating_add (get a) bytes) max_ea)

-- `Address::distance_to`.
unfoldable pub distance_to : Address → Address → ℕ
unfolding get
distance_to a end = get end - get a

-- `Ord for Address`, by the raw addresses.
unfoldable pub less : Address → Address → Bool
unfolding get
less a b = ltb (get a) (get b)
