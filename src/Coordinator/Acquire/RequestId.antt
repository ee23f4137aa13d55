-- ===== src/Coordinator/Acquire/RequestId.antt =====
-- `validateAcquisitionRequestID` of internal/recovery/coordinator/acquire.go, which tests the id by
-- hand, byte by byte.
pub mod Matches
use effexor_win_doctor.Prelude.{
  ℕ, String, Bool, true, false, List, [], ◌∷◌, ◌&&◌, not, ◌==◌, eqb, leb, ◌||◌, all, length, take,
  drop, codes, bytes_of, Result, guard, ◌>>◌,
}
use effexor_win_doctor.Coordinator.{CommandError, invalid_argument}

unfoldable pub same_bytes : List ℕ → List ℕ → Bool
same_bytes [] [] = true
same_bytes [] (d ∷ ds) = false
same_bytes (c ∷ cs) [] = false
same_bytes (c ∷ cs) (d ∷ ds) = eqb c d && same_bytes cs ds

-- `(r < '0' || r > '9') && (r < 'a' || r > 'f')` is refused. A byte of a character that is not ASCII
-- is outside both ranges, as the character is.
abbrev pub is_hex_byte : ℕ → Bool
is_hex_byte r = (leb b'0' r && leb r b'9') || (leb b'a' r && leb r b'f')

-- `matched`
unfoldable pub matched : List ℕ → Bool
unfolding same_bytes
matched id =
    eqb (length id) 31 && all is_hex_byte (drop 7 id) && same_bytes (take 7 id) (codes "acqreq-")

unfoldable pub validate_acquisition_request_id : String → Result CommandError (Unit {0})
unfolding matched
validate_acquisition_request_id id = do
  guard (not (id == "")) (invalid_argument "request_id is required")
  guard (matched (bytes_of (codes id)))
      (invalid_argument "request_id must match acqreq-<24 lowercase hex>")
