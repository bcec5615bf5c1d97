-- ===== src/Kernel/Hash.antt =====
-- The hashes of kernel/src/crypto.rs. BLAKE3 and the hex encoding are third-party crates: they are
-- the parameter `Crates`.
pub mod Framing
pub mod Collision
use veilux_binary.Base.{ℕ, zero, suc, ◌/◌, ◌%◌, List, [], ◌∷◌, ◌++◌, reverse, Text, lit, length}

-- The crates `blake3` and `hex`.
pub record Crates : Type 0 where
  -- `blake3::hash`, and a `Hasher` that is fed in pieces, on the bytes fed in all
  pub blake3 : Text → Text
  -- `hex::encode`
  pub hex_encode : Text → Text

-- `struct Hash([u8; 32])`
abbrev pub Hash : Type 0
Hash = Text

abbrev zeros : ℕ → Text
zeros zero = []
zeros (suc n) = 0 ∷ zeros n

-- `Hash::ZERO`
unfoldable pub zero_hash : Hash
zero_hash = zeros 32

-- `to_le_bytes` of an integer of `k` bytes.
unfoldable pub le_bytes : ℕ → ℕ → Text
le_bytes zero n = []
le_bytes (suc k) n = n % 256 ∷ le_bytes k (n / 256)

-- `to_be_bytes` of an integer of `k` bytes.
unfoldable pub be_bytes : ℕ → ℕ → Text
be_bytes k n = reverse (le_bytes k n)

-- The `for p in parts` loop of `commit`: each part behind its length.
unfoldable pub frame : List Text → Text
frame [] = []
frame (p ∷ ps) = le_bytes 8 (length p) ++ (p ++ frame ps)

-- All that `commit` feeds to the hasher.
unfoldable pub commit_input : Text → List Text → Text
commit_input domain parts = domain ++ (0xff ∷ frame parts)

module _ (x : Crates) where
  unfoldable pub digest : Text → Hash
  digest bytes = x.blake3 bytes

  unfoldable pub combine : Hash → Hash → Hash
  combine left right = x.blake3 (left ++ right)

  unfoldable pub commit : Text → List Text → Hash
  commit domain parts = x.blake3 (commit_input domain parts)

  unfoldable pub to_hex : Hash → Text
  to_hex h = lit "0x" ++ x.hex_encode h
