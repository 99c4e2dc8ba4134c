-- ===== src/Sppp/Prefix.antt =====
-- SizePrefixer.cpp
use rcp_flext.Prelude.{ℕ, ◌+◌, ◌*◌, ◌/◌, ◌%◌, ◌<◌, ◌≡◌, List, [], ◌∷◌, arith, length, All}
use rcp_flext.Flext.{Flext, Out, to_out_list}
use rcp_flext.Bytes.{IsByte, data_atoms}

-- The four bytes of a number in network order: `htonl`, then `memcpy`.
unfoldable pub network_bytes : ℕ → List ℕ
network_bytes n = n / 16777216 % 256 ∷ n / 65536 % 256 ∷ n / 256 % 256 ∷ n % 256 ∷ []

-- The number that four bytes in network order stand for.
pub from_network : List ℕ → ℕ
from_network (a ∷ b ∷ c ∷ d ∷ []) = a * 16777216 + b * 65536 + c * 256 + d
from_network _ = 0

module _ (fx : Flext) where
  open fx use {Atom}

  unfoldable pub size_atoms : ℕ → List Atom
  unfolding data_atoms network_bytes
  size_atoms argc = data_atoms fx (network_bytes argc)

  -- The size goes out on the right outlet first, then the list itself on the left.
  unfoldable pub m_list : List Atom → List (Out Atom)
  unfolding size_atoms
  m_list argv = to_out_list 1 (size_atoms (length argv)) ∷ to_out_list 0 argv ∷ []

pub network_bytes-IsByte : (n : ℕ) → All IsByte (network_bytes n)
unfolding network_bytes
network_bytes-IsByte n = omega arith

pub from_network-network_bytes : (n : ℕ) → n < 4294967296 → from_network (network_bytes n) ≡ n
unfolding from_network network_bytes
from_network-network_bytes n h = omega arith
