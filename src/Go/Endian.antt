-- ===== src/Go/Endian.antt =====
-- encoding/binary's LittleEndian on 16 and 32 bits.
use mirror_agent.Base.{ℕ, ◌+◌, ◌*◌, ◌/◌, ◌%◌, ◌^◌, ◌<◌, ◌≡◌, [], ◌∷◌, arith, Bytes}

abbrev pub put_uint16 : ℕ → Bytes
put_uint16 v = (v % 256) ∷ (v / 256 % 256) ∷ []

abbrev pub put_uint32 : ℕ → Bytes
put_uint32 v = (v % 256) ∷ (v / 256 % 256) ∷ (v / 65536 % 256) ∷ (v / 16777216 % 256) ∷ []

-- A slice that is too short faults in Go; the callers give slices of the right length.
abbrev pub uint16 : Bytes → ℕ
uint16 (a ∷ b ∷ _) = a + 256 * b
uint16 _ = 0

abbrev pub uint32 : Bytes → ℕ
uint32 (a ∷ b ∷ c ∷ d ∷ _) = a + 256 * b + 65536 * c + 16777216 * d
uint32 _ = 0

pub uint16-put_uint16 : (v : ℕ) → v < 2 ^ 16 → uint16 (put_uint16 v) ≡ v
uint16-put_uint16 v h = omega arith

pub uint32-put_uint32 : (v : ℕ) → v < 2 ^ 32 → uint32 (put_uint32 v) ≡ v
uint32-put_uint32 v h = omega arith
