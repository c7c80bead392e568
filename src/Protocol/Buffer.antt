-- ===== src/Protocol/Buffer.antt =====
-- A `Uint8Array` of a frame and the `DataView` methods over it, big-endian, as the codec of
-- src/core/protocol-v2.ts uses them. A buffer is the list of its bytes.
pub mod Laws
use deqr.Common.{
  ℕ, zero, suc, ◌+◌, ◌-◌, ◌*◌, ◌/◌, ◌%◌, ◌^◌, List, [], ◌∷◌, length, take, drop, replicate,
}
use deqr.Common.{leb, if◌then◌else◌}
use deqr.Protocol.Types.{V2Result, ok, throws}

-- new Uint8Array(size)
abbrev pub zeros : ℕ → List ℕ
zeros size = replicate size 0

-- bytes.set(ys, offset); what would stand behind the end is dropped, and no caller writes there
unfoldable pub write : List ℕ → ℕ → List ℕ → List ℕ
write [] offset ys = []
write (b ∷ bs) (suc offset) ys = b ∷ write bs offset ys
write (b ∷ bs) zero [] = b ∷ bs
write (b ∷ bs) zero (y ∷ ys) = y ∷ write bs zero ys

abbrev pub be16 : ℕ → List ℕ
be16 v = (v / 256 % 256) ∷ (v % 256) ∷ []

abbrev pub be32 : ℕ → List ℕ
be32 v = (v / 2 ^ 24 % 256) ∷ (v / 2 ^ 16 % 256) ∷ (v / 256 % 256) ∷ (v % 256) ∷ []

abbrev pub be64 : ℕ → List ℕ
be64 v =
    (v / 2 ^ 56 % 256)
    ∷ (v / 2 ^ 48 % 256)
    ∷ (v / 2 ^ 40 % 256)
    ∷ (v / 2 ^ 32 % 256)
    ∷ (v / 2 ^ 24 % 256)
    ∷ (v / 2 ^ 16 % 256)
    ∷ (v / 256 % 256)
    ∷ (v % 256)
    ∷ []

-- bytes[offset] = v, view.setUint16, view.setUint32, view.setBigUint64
unfoldable pub set_u8 : List ℕ → ℕ → ℕ → List ℕ
unfolding write
set_u8 bytes offset v = write bytes offset ((v % 256) ∷ [])

unfoldable pub set_u16 : List ℕ → ℕ → ℕ → List ℕ
unfolding write
set_u16 bytes offset v = write bytes offset (be16 v)

unfoldable pub set_u32 : List ℕ → ℕ → ℕ → List ℕ
unfolding write
set_u32 bytes offset v = write bytes offset (be32 v)

unfoldable pub set_u64 : List ℕ → ℕ → ℕ → List ℕ
unfolding write
set_u64 bytes offset v = write bytes offset (be64 v)

-- bytes.slice(start, end), within the buffer
abbrev pub slice : List ℕ → ℕ → ℕ → List ℕ
slice bytes start end = take (end - start) (drop start bytes)

abbrev pub be_value : ℕ → List ℕ → ℕ
be_value acc [] = acc
be_value acc (b ∷ bs) = be_value (acc * 256 + b) bs

-- A read that is not wholly inside the buffer is a RangeError.
unfoldable pub get_uint : ℕ → List ℕ → ℕ → V2Result ℕ
get_uint size bytes offset =
    if leb (offset + size) (length bytes)
    then ok (be_value 0 (take size (drop offset bytes)))
    else throws

-- view.getUint16, view.getUint32, view.getBigUint64
abbrev pub get_u16 : List ℕ → ℕ → V2Result ℕ
get_u16 = get_uint 2

abbrev pub get_u32 : List ℕ → ℕ → V2Result ℕ
get_u32 = get_uint 4

abbrev pub get_u64 : List ℕ → ℕ → V2Result ℕ
get_u64 = get_uint 8
