-- ===== src/Sflow/Decoder/Bytes.antt =====
-- Go's byte slices as lists of numbers. An index or a slice out of range panics: it is none.
use unifabric.Common.{
  List, [], ◌∷◌, ◌++◌, ℕ, zero, suc, ◌+◌, ◌-◌, ◌*◌, ◌<◌, ◌≤◌, true, Option, none, some, leb, ◌&&◌,
  length, length-append, if◌then◌else◌, ◌≡◌, refl, ap, arith,
}

abbrev pub Bytes : Type 0
Bytes = List ℕ

abbrev pub AreBytes : Bytes → Type 0
AreBytes [] = Unit
AreBytes (b ∷ bs) = (b < 256) × AreBytes bs

-- the next statement, unless this one panics
infixl 5 ◌>>=◌
abbrev pub ◌>>=◌ : {A B : Type 0} → Option A → (A → Option B) → Option B
none >>= f = none
some a >>= f = f a

-- `bs[i]`
unfoldable pub byte_at : Bytes → ℕ → Option ℕ
byte_at [] i = none
byte_at (b ∷ bs) zero = some b
byte_at (b ∷ bs) (suc i) = byte_at bs i

unfoldable pub drop : ℕ → Bytes → Bytes
drop zero bs = bs
drop (suc n) [] = []
drop (suc n) (b ∷ bs) = drop n bs

unfoldable pub take : ℕ → Bytes → Bytes
take zero bs = []
take (suc n) [] = []
take (suc n) (b ∷ bs) = b ∷ take n bs

-- `bs[low:]` and `bs[low:high]`
unfoldable pub slice_from : Bytes → ℕ → Option Bytes
slice_from bs low = if leb low (length bs) then some (drop low bs) else none

unfoldable pub slice : Bytes → ℕ → ℕ → Option Bytes
slice bs low high =
    if leb low high && leb high (length bs) then some (take (high - low) (drop low bs)) else none

-- binary.BigEndian.Uint16, which reads the first two bytes
unfoldable pub big_endian_uint16 : Bytes → Option ℕ
big_endian_uint16 (high ∷ low ∷ bs) = some (high * 256 + low)
big_endian_uint16 (high ∷ []) = none
big_endian_uint16 [] = none

-- a statement that does not panic, with what holds of its result
abbrev pub Returns : {A : Type 0} → (A → Type 0) → Option A → Type 0
Returns P none = ⊥
Returns P (some a) = P a

pub Returns->>= :
    {A B : Type 0} (P : A → Type 0) (Q : B → Type 0) (o : Option A) (f : A → Option B)
    → Returns P o
    → ((a : A) → P a → Returns Q (f a))
    → Returns Q (o >>= f)
Returns->>= P Q none f p step = absurd p
Returns->>= P Q (some a) f p step = step a p

pub Returns-imp :
    {A : Type 0} (P Q : A → Type 0) (o : Option A)
    → Returns P o
    → ((a : A) → P a → Q a)
    → Returns Q o
Returns-imp P Q none p step = absurd p
Returns-imp P Q (some a) p step = step a p

pub byte_at_in :
    (bs : Bytes) (i : ℕ) → AreBytes bs → i < length bs → Returns (λ b. b < 256) (byte_at bs i)
unfolding byte_at
byte_at_in [] i h lt = omega (arith, lt)
byte_at_in (b ∷ bs) zero h lt = h.0
byte_at_in (b ∷ bs) (suc i) h lt = byte_at_in bs i h.1 (omega (arith, lt))

pub length-drop : (n : ℕ) (bs : Bytes) → length (drop n bs) ≡ length bs - n
unfolding drop
length-drop zero bs = omega arith
length-drop (suc n) [] = omega arith
length-drop (suc n) (b ∷ bs) = omega (arith, length-drop n bs)

pub length-take : (n : ℕ) (bs : Bytes) → n ≤ length bs → length (take n bs) ≡ n
unfolding take
length-take zero bs h = refl
length-take (suc n) [] h = omega (arith, h)
length-take (suc n) (b ∷ bs) h = omega (arith, length-take n bs (omega (arith, h)))

pub drop-AreBytes : (n : ℕ) (bs : Bytes) → AreBytes bs → AreBytes (drop n bs)
unfolding drop
drop-AreBytes zero bs h = h
drop-AreBytes (suc n) [] h = h
drop-AreBytes (suc n) (b ∷ bs) h = drop-AreBytes n bs h.1

pub take-AreBytes : (n : ℕ) (bs : Bytes) → AreBytes bs → AreBytes (take n bs)
unfolding take
take-AreBytes zero bs h = tt
take-AreBytes (suc n) [] h = tt
take-AreBytes (suc n) (b ∷ bs) h = (h.0, take-AreBytes n bs h.1)

pub slice_in :
    (bs : Bytes) (low high : ℕ)
    → AreBytes bs
    → low ≤ high
    → high ≤ length bs
    → Returns (λ s. (length s ≡ high - low) × AreBytes s) (slice bs low high)
unfolding slice
slice_in bs low high h l k =
    let e : (leb low high && leb high (length bs)) ≡ true = ground (arith, l, k) in
    rw e (
      omega (
        arith,
        length-take (high - low) (drop low bs) (omega (arith, length-drop low bs, l, k)),
        length-drop low bs,
      ),
      take-AreBytes (high - low) (drop low bs) (drop-AreBytes low bs h),
    )

pub big_endian_uint16_in :
    (bs : Bytes) → AreBytes bs → 2 ≤ length bs → Returns (λ n. n < 65536) (big_endian_uint16 bs)
unfolding big_endian_uint16
big_endian_uint16_in [] h l = omega (arith, l)
big_endian_uint16_in (a ∷ []) h l = omega (arith, l)
big_endian_uint16_in (a ∷ b ∷ bs) h l = omega (arith, h.0, h.1.0)

pub byte_at-append : (xs ys : Bytes) (i : ℕ) → i < length xs → byte_at (xs ++ ys) i ≡ byte_at xs i
unfolding byte_at
byte_at-append [] ys i l = absurd (omega (arith, l))
byte_at-append (x ∷ xs) ys zero l = refl
byte_at-append (x ∷ xs) ys (suc i) l = byte_at-append xs ys i (omega (arith, l))

pub byte_at_next : (xs ys : Bytes) (i : ℕ) → byte_at (xs ++ ys) (length xs + i) ≡ byte_at ys i
unfolding byte_at
byte_at_next [] ys i = ap (byte_at ys) (omega arith)
byte_at_next (x ∷ xs) ys i =
    let e : suc (length xs) + i ≡ suc (length xs + i) = omega arith in rw e (byte_at_next xs ys i)

drop-append : (xs ys : Bytes) → drop (length xs) (xs ++ ys) ≡ ys
unfolding drop
drop-append [] ys = refl
drop-append (x ∷ xs) ys = drop-append xs ys

take-append : (xs ys : Bytes) → take (length xs) (xs ++ ys) ≡ xs
unfolding take
take-append [] ys = refl
take-append (x ∷ xs) ys = ap (λ zs. x ∷ zs) (take-append xs ys)

pub slice_middle :
    (xs ys zs : Bytes) (low high : ℕ)
    → low ≡ length xs
    → high ≡ length xs + length ys
    → slice (xs ++ (ys ++ zs)) low high ≡ some ys
unfolding slice
slice_middle xs ys zs low high e k =
    let t : (leb low high && leb high (length (xs ++ (ys ++ zs)))) ≡ true =
      ground (arith, e, k, length-append xs (ys ++ zs), length-append ys zs) in
    let m : high - low ≡ length ys = omega (arith, e, k) in
    rw (t, m, e, drop-append xs (ys ++ zs), take-append ys zs) refl

pub slice_from_end :
    (xs ys : Bytes) (low : ℕ) → low ≡ length xs → slice_from (xs ++ ys) low ≡ some ys
unfolding slice_from
slice_from_end xs ys low e =
    let t : leb low (length (xs ++ ys)) ≡ true = ground (arith, e, length-append xs ys) in
    rw (t, e, drop-append xs ys) refl
