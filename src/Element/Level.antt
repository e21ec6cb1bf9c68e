-- ===== src/Element/Level.antt =====
-- A level that is sent as text.
use scriptor.Prelude.{◌≡◌, true, false, some, ◌++◌, ℤ, Bytes, codes, ok, arith}
use scriptor.Host.{Host}
use scriptor.Element.Number.{to_string}
use scriptor.Element.Number.Digits.{FitsInt}
use scriptor.Element.Number.Prefix.{AreSpaces, IsEnd, stoi_prefix}
use scriptor.Element.{check_level, find_level}

module _ (h : Host) where
  -- A level may be sent as a number or as a text that begins with it, behind white space and in
  -- front of anything that does not begin with a digit: both are checked alike, and a number out
  -- of range becomes `trace`.
  pub find_level_prefix :
      (j k : h.Json) (v w : h.Json) (z : ℤ) (spaces rest : Bytes)
      → FitsInt z
      → AreSpaces spaces
      → IsEnd rest
      → h.find j (codes "l") ≡ some v
      → h.is_null v ≡ false
      → h.is_string v ≡ true
      → h.get_string v ≡ ok (spaces ++ (to_string z ++ rest))
      → h.find k (codes "l") ≡ some w
      → h.is_null w ≡ false
      → h.is_string w ≡ false
      → h.get_int w ≡ ok z
      → (find_level h j ≡ find_level h k) × (find_level h k ≡ ok (check_level h z))
  unfolding find_level
  find_level_prefix j k v w z spaces rest fits white end a1 a2 a3 a4 b1 b2 b3 b4 =
      ground (arith, stoi_prefix spaces rest z white fits end)
