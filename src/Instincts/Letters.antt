-- ===== src/Instincts/Letters.antt =====
-- The form of what `encodeCrockford` makes: pkg/instincts/format.go.
use forge_development_hub_cl.Base.{
  ℕ, zero, suc, ◌<◌, ◌≡◌, refl, Bool, true, [], ◌∷◌, ◌++◌, Text, map, arith, All, all, length,
}
use forge_development_hub_cl.Instincts.{is_ulid, is_ulid_byte}
use forge_development_hub_cl.Instincts.Ulid.{crockford, nth, quintets, indices, encode_crockford}
use forge_development_hub_cl.Instincts.Order.{exactly, IsIndex}

abbrev pub IsByte : ℕ → Type 0
IsByte b = b < 256

nth-all : (p : ℕ → Bool) (cs : Text) (x : ℕ) → all p cs ≡ true → x < length cs → p (nth cs x) ≡ true
unfolding nth
nth-all p [] x h k = ground arith
nth-all p (c ∷ cs) zero h k = ground arith
nth-all p (c ∷ cs) (suc x) h k = nth-all p cs x (ground arith) (ground arith)

all-letters : (ds : Text) → All IsIndex ds → all is_ulid_byte (map (nth crockford) ds) ≡ true
all-letters [] h = refl
all-letters (d ∷ ds) h = rw (nth-all is_ulid_byte crockford d refl h.0, all-letters ds h.1) refl

quintets-All :
    (a b c d e : ℕ)
    → a < 256
    → b < 256
    → c < 256
    → d < 256
    → e < 256
    → All IsIndex (quintets a b c d e)
quintets-All a b c d e ha hb hc hd he = (
  omega arith,
  (
    omega arith,
    (omega arith, (omega arith, (omega arith, (omega arith, (omega arith, (omega arith, tt)))))),
  ),
)

length-map : (p : Text) → length (map (nth crockford) p) ≡ length p
length-map [] = refl
length-map (x ∷ p) = rw (length-map p) refl

append-All : (p q : Text) → All IsIndex p → All IsIndex q → All IsIndex (p ++ q)
append-All [] q h k = k
append-All (x ∷ p) q h k = (h.0, append-All p q h.1 k)

indices-All :
    (raw : Text)
    → length raw ≡ 16
    → All IsByte raw
    → All IsIndex (indices raw) × (length (indices raw) ≡ 26)
unfolding indices
indices-All raw l =
    let (
      r0,
      s1,
      d1,
      (
        r1,
        s2,
        d2,
        (
          r2,
          s3,
          d3,
          (
            r3,
            s4,
            d4,
            (
              r4,
              s5,
              d5,
              (
                r5,
                s6,
                d6,
                (
                  r6,
                  s7,
                  d7,
                  (
                    r7,
                    s8,
                    d8,
                    (
                      r8,
                      s9,
                      d9,
                      (
                        r9,
                        s10,
                        d10,
                        (
                          r10,
                          s11,
                          d11,
                          (
                            r11,
                            s12,
                            d12,
                            (r12, s13, d13, (r13, s14, d14, (r14, s15, d15, (r15, s16, d16, d17)))),
                          ),
                        ),
                      ),
                    ),
                  ),
                ),
              ),
            ),
          ),
        ),
      ),
    ) =
      exactly 16 raw l in
    rw (d1, d2, d3, d4, d5, d6, d7, d8, d9, d10, d11, d12, d13, d14, d15, d16, d17)
      (λ h.
        let (
          b0,
          (
            b1,
            (
              b2,
              (b3, (b4, (b5, (b6, (b7, (b8, (b9, (b10, (b11, (b12, (b13, (b14, (b15, z))))))))))))),
            ),
          ),
        ) =
          h in
        (
          (
            omega arith,
            (
              omega arith,
              append-All (quintets r1 r2 r3 r4 r5)
                  (quintets r6 r7 r8 r9 r10 ++ quintets r11 r12 r13 r14 r15)
                  (quintets-All r1 r2 r3 r4 r5 b1 b2 b3 b4 b5)
                  (append-All (quintets r6 r7 r8 r9 r10) (quintets r11 r12 r13 r14 r15)
                    (quintets-All r6 r7 r8 r9 r10 b6 b7 b8 b9 b10)
                    (quintets-All r11 r12 r13 r14 r15 b11 b12 b13 b14 b15)),
            ),
          ),
          refl,
        ))

-- Sixteen bytes are encoded to a ULID: 26 characters of the alphabet.
pub is_ulid-encode_crockford :
    (raw : Text) → length raw ≡ 16 → All IsByte raw → is_ulid (encode_crockford raw) ≡ true
unfolding is_ulid encode_crockford
is_ulid-encode_crockford raw l h =
    let (inside, n) = indices-All raw l h in
    rw (all-letters (indices raw) inside, length-map (indices raw), n) refl
