-- ===== src/Instincts/Ulid.antt =====
-- ULIDs: `NewULID` and `encodeCrockford` of pkg/instincts/format.go. Bytes are natural numbers
-- below 256; the masks and shifts of the source are written as divisions and remainders.
use Prim.Native.Nat.{◌/◌, ◌%◌}
use forge_development_hub_cl.Base.{
  ℕ, zero, suc, ◌+◌, ◌*◌, Option, none, some, List, [], ◌∷◌, ◌++◌, Text, codes, map,
}

abbrev pub crockford : Text
crockford = codes "0123456789ABCDEFGHJKMNPQRSTVWXYZ"

unfoldable pub nth : Text → ℕ → ℕ
nth [] n = 0
nth (c ∷ cs) zero = c
nth (c ∷ cs) (suc n) = nth cs n

-- The indices into the alphabet of five bytes: eight of them.
abbrev pub quintets : ℕ → ℕ → ℕ → ℕ → ℕ → List ℕ
quintets a b c d e =
    (a / 8)
    ∷ ((a % 8) * 4 + b / 64)
    ∷ ((b / 2) % 32)
    ∷ ((b % 2) * 16 + c / 16)
    ∷ ((c % 16) * 2 + d / 128)
    ∷ ((d / 4) % 32)
    ∷ ((d % 4) * 8 + e / 32)
    ∷ (e % 32)
    ∷ []

-- The indices of the 16 bytes: the first byte alone, then three times five.
unfoldable pub indices : Text → Text
indices (r0 ∷ r1 ∷ r2 ∷ r3 ∷ r4 ∷ r5 ∷ r6 ∷ r7 ∷ r8 ∷ r9 ∷ r10 ∷ r11 ∷ r12 ∷ r13 ∷ r14 ∷ r15 ∷ []) =
    (r0 / 32)
    ∷ (r0 % 32)
    ∷ (quintets r1 r2 r3 r4 r5 ++ quintets r6 r7 r8 r9 r10 ++ quintets r11 r12 r13 r14 r15)
indices _ = []

-- For 16 bytes; for any other number the source panics.
unfoldable pub encode_crockford : Text → Text
unfolding indices nth
encode_crockford raw = map (nth crockford) (indices raw)

-- `byte(ms >> 40)` and so on, before the 10 random bytes.
abbrev pub timestamp : ℕ → Text
timestamp ms =
    ((ms / 1099511627776) % 256)
    ∷ ((ms / 4294967296) % 256)
    ∷ ((ms / 16777216) % 256)
    ∷ ((ms / 65536) % 256)
    ∷ ((ms / 256) % 256)
    ∷ (ms % 256)
    ∷ []

-- From the milliseconds of a time that is not before 1970, and what `rand.Read` fills in.
unfoldable pub new_ulid : ℕ → Option Text → Option Text
unfolding encode_crockford
new_ulid ms none = none
new_ulid ms (some random) = some (encode_crockford (timestamp ms ++ random))
