-- ===== src/Slip/Encoder.antt =====
-- SlipEncoder.cpp
use rcp_flext.Prelude.{
  ℕ, ◌≡◌, List, [], ◌∷◌, ◌++◌, Option, some, ◌>>=◌, append_assoc, append-nil, filter_map,
}
use rcp_flext.Flext.{Flext, Out, to_out_list}
use rcp_flext.Bytes.{byte?, collect, collect_lem, unsigned_atoms}
use rcp_flext.Slip.Codec.{SlipLib}

pub record SlipEncoder : Type 0 where
  pub encoded : List ℕ

unfoldable pub append_data : SlipEncoder → ℕ → SlipEncoder
append_data e b = record e { encoded = e.encoded ++ b ∷ [] }

-- The calls of the `data_out` callback.
unfoldable pub data_out : SlipEncoder → List ℕ → SlipEncoder
unfolding append_data
data_out e [] = e
data_out e (b ∷ bs) = data_out (append_data e b) bs

module _ (fx : Flext) (lib : SlipLib) where
  open fx use {Atom}

  unfoldable pub m_list : SlipEncoder → List Atom → Option (SlipEncoder × List (Out Atom))
  unfolding collect data_out unsigned_atoms
  m_list e argv = do
    packet ← collect fx argv
    let e' = data_out (record e { encoded = [] }) (lib.encode packet)
    some (e', to_out_list 0 (unsigned_atoms fx e'.encoded) ∷ [])

  encoded-data_out :
      (e : SlipEncoder) (bs : List ℕ) → data_out e bs ≡ record { encoded = e.encoded ++ bs }
  unfolding data_out
  encoded-data_out e [] = rw append-nil
  encoded-data_out e (b ∷ bs) = rw (encoded-data_out (append_data e b) bs) (simp append_assoc)

  -- One list in, one list out: the frame of the bytes of the list. Nothing of an earlier list is left
  -- in the buffer, and no write is out of bounds.
  pub m_list_lem :
      (e : SlipEncoder) (argv : List Atom)
      → let frame = lib.encode (filter_map (byte? fx) argv) in
        m_list e argv
        ≡ some (record { encoded = frame }, to_out_list 0 (unsigned_atoms fx frame) ∷ [])
  unfolding m_list
  m_list_lem e argv = rw (collect_lem, encoded-data_out)
