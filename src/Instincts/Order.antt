-- ===== src/Instincts/Order.antt =====
-- The order of ULIDs: pkg/instincts/format.go.
use Prim.Native.Nat.{◌/◌, ◌%◌, ◌^◌}
use forge_development_hub_cl.Base.{
  ℕ, zero, suc, ◌<◌, ◌≡◌, refl, sym, ap, ◌∙◌, ◌⊎◌, inl, inr, true, Option, none, some, [], ◌∷◌,
  ◌++◌, Text, map, arith, All, length, text_lt,
}
use forge_development_hub_cl.Instincts.Ulid.{
  crockford, nth, quintets, indices, encode_crockford, timestamp, new_ulid,
}

-- The base-32 digits of a number, the last n of them.
digits : ℕ → ℕ → Text
digits zero a = []
digits (suc n) a = digits n (a / 32) ++ (a % 32) ∷ []

length-append_one : (p : Text) (x : ℕ) → length (p ++ x ∷ []) ≡ suc (length p)
length-append_one [] x = refl
length-append_one (y ∷ p) x = ap suc (length-append_one p x)

text_lt-extend :
    (p q r s : Text) → length p ≡ length q → text_lt p q ≡ true → text_lt (p ++ r) (q ++ s) ≡ true
unfolding text_lt
text_lt-extend [] [] r s l h = ground arith
text_lt-extend [] (y ∷ q) r s l h = ground arith
text_lt-extend (x ∷ p) [] r s l h = ground arith
text_lt-extend (x ∷ p) (y ∷ q) r s l h = ground (arith, text_lt-extend p q r s)

text_lt-last : (p : Text) (x y : ℕ) → x < y → text_lt (p ++ x ∷ []) (p ++ y ∷ []) ≡ true
unfolding text_lt
text_lt-last [] x y h = ground arith
text_lt-last (z ∷ p) x y h = ground (arith, text_lt-last p x y h)

length-digits : (n a : ℕ) → length (digits n a) ≡ n
unfolding digits
length-digits zero a = refl
length-digits (suc n) a =
    length-append_one (digits n (a / 32)) (a % 32) ∙ ap suc (length-digits n (a / 32))

-- The order of two numbers is that of their digits.
split32 : (a b : ℕ) → a < b → (a / 32 < b / 32) ⊎ ((a / 32 ≡ b / 32) × (a % 32 < b % 32))
split32 a b h = ground arith

below32 : (n b : ℕ) → b < 32 ^ suc n → b / 32 < 32 ^ n
below32 n b k = omega arith

none_below : (a b : ℕ) → a < b → b < 1 → ⊥
none_below a b h k = omega arith

digits-increasing : (n a b : ℕ) → a < b → b < 32 ^ n → text_lt (digits n a) (digits n b) ≡ true
unfolding digits
digits-increasing zero a b h k = elim (none_below a b h k) [ ]
digits-increasing (suc n) a b h k = elim (split32 a b h) [
  | inl lt ↦
      text_lt-extend (digits n (a / 32)) (digits n (b / 32)) _ _
        (length-digits n (a / 32) ∙ sym (length-digits n (b / 32)))
        (digits-increasing n (a / 32) (b / 32) lt (below32 n b k))
  | inr (same, lt) ↦ rw same (text_lt-last (digits n (b / 32)) (a % 32) (b % 32) lt)
]

cons_eq : {x y : ℕ} {p q : Text} → x ≡ y → p ≡ q → x ∷ p ≡ y ∷ q
cons_eq e d = rw (e, d) refl

-- The first ten indices of the 16 bytes are the digits of the time.
time_digits :
    (ms : ℕ)
    → ms < 281474976710656
    → ((ms / 1099511627776) % 256) / 32
        ∷ ((ms / 1099511627776) % 256) % 32
        ∷ quintets
            ((ms / 4294967296) % 256)
            ((ms / 16777216) % 256)
            ((ms / 65536) % 256)
            ((ms / 256) % 256)
            (ms % 256)
      ≡ digits 10 ms
unfolding digits
time_digits ms h = cons_eq (omega arith) (
    cons_eq (omega arith) (
      cons_eq (omega arith) (
        cons_eq (omega arith) (
          cons_eq (omega arith) (
            cons_eq (omega arith) (
              cons_eq (omega arith)
                (cons_eq (omega arith) (cons_eq (omega arith) (cons_eq (omega arith) refl)))))))))

-- A text of n bytes, byte by byte.
abbrev pub Exactly : ℕ → Text → Type 0
Exactly zero r = r ≡ []
Exactly (suc n) r = (c : ℕ) × (s : Text) × (r ≡ c ∷ s) × Exactly n s

pub exactly : (n : ℕ) (r : Text) → length r ≡ n → Exactly n r
exactly zero [] e = refl
exactly zero (c ∷ r) e = ground arith
exactly (suc n) [] e = ground arith
exactly (suc n) (c ∷ r) e = (c, r, refl, exactly n r (omega arith))

indices-split :
    (ms : ℕ) (r : Text)
    → ms < 281474976710656
    → length r ≡ 10
    → (rest : Text) × (indices (timestamp ms ++ r) ≡ digits 10 ms ++ rest)
unfolding indices
indices-split ms r h l =
    let (
      r6,
      s1,
      d1,
      (
        r7,
        s2,
        d2,
        (
          r8,
          s3,
          d3,
          (
            r9,
            s4,
            d4,
            (
              r10,
              s5,
              d5,
              (r11, s6, d6, (r12, s7, d7, (r13, s8, d8, (r14, s9, d9, (r15, s10, d10, d11))))),
            ),
          ),
        ),
      ),
    ) =
      exactly 10 r l in
    rw (d1, d2, d3, d4, d5, d6, d7, d8, d9, d10, d11)
      (
        quintets r6 r7 r8 r9 r10 ++ quintets r11 r12 r13 r14 r15,
        ap (λ (p : Text). p ++ (quintets r6 r7 r8 r9 r10 ++ quintets r11 r12 r13 r14 r15))
            (time_digits ms h),
      )

-- Every letter is above the one before.
abbrev Rising : Text → Type 0
Rising [] = Unit
Rising (c ∷ []) = Unit
Rising (c ∷ d ∷ cs) = (c < d) × Rising (d ∷ cs)

nth-first : (c : ℕ) (cs : Text) (y : ℕ) → Rising (c ∷ cs) → y < length cs → c < nth cs y
unfolding nth
nth-first c [] y h k = ground arith
nth-first c (d ∷ cs) zero h k = h.0
nth-first c (d ∷ cs) (suc y) h k = omega (arith, nth-first d cs y h.1, h.0, k)

nth-Rising : (cs : Text) (x y : ℕ) → Rising cs → x < y → y < length cs → nth cs x < nth cs y
unfolding nth
nth-Rising [] x y h k l = ground arith
nth-Rising (c ∷ cs) x zero h k l = ground arith
nth-Rising (c ∷ cs) zero (suc y) h k l = nth-first c cs y h (omega arith)
nth-Rising (c ∷ []) (suc x) (suc y) h k l = ground arith
nth-Rising (c ∷ d ∷ cs) (suc x) (suc y) h k l =
    nth-Rising (d ∷ cs) x y h.1 (omega arith) (omega arith)

letters-Rising : Rising crockford
letters-Rising = ground arith

abbrev pub IsIndex : ℕ → Type 0
IsIndex d = d < 32

letter_lt : (x y : ℕ) → x < y → y < 32 → nth crockford x < nth crockford y
letter_lt x y h k = nth-Rising crockford x y letters-Rising h k

within : (later : ℕ) → later < 281474976710656 → later < 32 ^ 10
within later k = omega arith

heads :
    (x y : ℕ) (p q : Text)
    → text_lt (x ∷ p) (y ∷ q) ≡ true
    → (x < y) ⊎ ((x ≡ y) × (text_lt p q ≡ true))
unfolding text_lt
heads x y p q h = ground arith

above_heads : (x y : ℕ) (p q : Text) → x < y → text_lt (x ∷ p) (y ∷ q) ≡ true
unfolding text_lt
above_heads x y p q h = ground arith

same_heads : (x : ℕ) (p q : Text) → text_lt p q ≡ true → text_lt (x ∷ p) (x ∷ q) ≡ true
unfolding text_lt
same_heads x p q h = ground arith

-- The alphabet keeps the order.
text_lt-letters :
    (p q : Text)
    → All IsIndex p
    → All IsIndex q
    → text_lt p q ≡ true
    → text_lt (map (nth crockford) p) (map (nth crockford) q) ≡ true
unfolding text_lt
text_lt-letters [] [] a b h = ground arith
text_lt-letters [] (y ∷ q) a b h = refl
text_lt-letters (x ∷ p) [] a b h = ground arith
text_lt-letters (x ∷ p) (y ∷ q) a b h = elim (heads x y p q h) [
  | inl lt ↦
      above_heads (nth crockford x) (nth crockford y) (map (nth crockford) p)
        (map (nth crockford) q) (letter_lt x y lt b.0)
  | inr (same, lt) ↦ rw same (
      same_heads (nth crockford y) (map (nth crockford) p) (map (nth crockford) q)
        (text_lt-letters p q a.1 b.1 lt))
]

append-All : (p q : Text) → All IsIndex p → All IsIndex q → All IsIndex (p ++ q)
append-All [] q h k = k
append-All (x ∷ p) q h k = (h.0, append-All p q h.1 k)

digits-All : (n a : ℕ) → All IsIndex (digits n a)
unfolding digits
digits-All zero a = tt
digits-All (suc n) a =
    append-All (digits n (a / 32)) (a % 32 ∷ []) (digits-All n (a / 32)) (omega arith, tt)

map-append :
    (p q : Text) → map (nth crockford) (p ++ q) ≡ map (nth crockford) p ++ map (nth crockford) q
map-append [] q = refl
map-append (x ∷ p) q = ap (◌∷◌ (nth crockford x)) (map-append p q)

length-map : (p : Text) → length (map (nth crockford) p) ≡ length p
length-map [] = refl
length-map (x ∷ p) = ap suc (length-map p)

abbrev letters : ℕ → Text
letters ms = map (nth crockford) (digits 10 ms)

unwrapped : Option Text → Text
unwrapped none = []
unwrapped (some u) = u

ulid-starts :
    (ms : ℕ) (r u : Text)
    → ms < 281474976710656
    → length r ≡ 10
    → new_ulid ms (some r) ≡ some u
    → (rest : Text) × (u ≡ letters ms ++ rest)
unfolding new_ulid encode_crockford unwrapped
ulid-starts ms r u h l e =
    let (rest, q) = indices-split ms r h l in
    (
      map (nth crockford) rest,
      sym (ap unwrapped e) ∙ ap (map (nth crockford)) q ∙ map-append (digits 10 ms) rest,
    )

-- Of two ULIDs, each with 10 random bytes, that of the earlier millisecond is less, whatever the
-- random bytes, up to the 48 bits that a time has.
pub text_lt-new_ulid :
    (ms later : ℕ) (r s u v : Text)
    → ms < later
    → later < 281474976710656
    → length r ≡ 10
    → length s ≡ 10
    → new_ulid ms (some r) ≡ some u
    → new_ulid later (some s) ≡ some v
    → text_lt u v ≡ true
text_lt-new_ulid ms later r s u v h k l m e d =
    let (rest, p) = ulid-starts ms r u (omega arith) l e in
    let (more_, q) = ulid-starts later s v k m d in
    rw (p, q)
      (text_lt-extend (letters ms) (letters later) rest more_
        (length-map (digits 10 ms)
          ∙ length-digits 10 ms
          ∙ sym (length-map (digits 10 later) ∙ length-digits 10 later))
        (text_lt-letters (digits 10 ms) (digits 10 later) (digits-All 10 ms) (digits-All 10 later)
          (digits-increasing 10 ms later h (within later k))))
