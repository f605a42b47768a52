-- ===== src/Mem/Find.antt =====
-- memmem finds the first occurrence (_lib/mem.h).
use native.Mathlib.Decide.{dec_lt}
use u.Common.{
  ◌*◌, ℕ, zero, suc, ◌+◌, ◌-◌, ◌≤◌, ◌<◌, ◌≡◌, ◌≢◌, Bool, true, false, Option, none, some, ◌==◌, ltb,
  if◌then◌else◌, arith, Safe, safe, Safe-bind, Safe-mono, Safe-if,
}
use u.Common.Int.{ℤ}
use u.Common.Buffer.{Buffer, read-Safe}
use u.Mem.{unsigned_char, memchr_from, memchr, match_at, memmem_from, memmem}

-- The `nl` bytes of `n` stand in `h` at `i`.
abbrev pub OccursAt : Buffer ℕ → ℕ → Buffer ℕ → ℕ → Type 0
OccursAt h i n nl = (j : ℕ) → j < nl → h.at (i + j) ≡ n.at j

-- The first place from `from` on where `n` stands in the first `hl` bytes of `h`, or none where
-- there is none.
abbrev pub IsFirst : Buffer ℕ → ℕ → Buffer ℕ → ℕ → ℕ → Option ℕ → Type 0
IsFirst h hl n nl from none = (k : ℕ) → from ≤ k → k + nl ≤ hl → ¬ OccursAt h k n nl
IsFirst h hl n nl from (some i) =
    (from ≤ i)
    × (i + nl ≤ hl)
    × OccursAt h i n nl
    × ((k : ℕ) → from ≤ k → k < i → ¬ OccursAt h k n nl)

-- Whether the bytes of the needle from `j` on match.
abbrev Matches : Buffer ℕ → ℕ → Buffer ℕ → ℕ → ℕ → Bool → Type 0
Matches h i n j nl true = (k : ℕ) → j ≤ k → k < nl → h.at (i + k) ≡ n.at k
Matches h i n j nl false = (k : ℕ) × (k < nl) × (h.at (i + k) ≢ n.at k)

Matches-more :
    (h : Buffer ℕ) (i : ℕ) (n : Buffer ℕ) (j nl : ℕ) (m : Bool)
    → h.at (i + j) ≡ n.at j
    → Matches h i n (j + 1) nl m
    → Matches h i n j nl m
Matches-more h i n j nl true here t = λ k p q. ground (arith, t k)
Matches-more h i n j nl false here t = t

match_at-Matches :
    (left : ℕ) (h : Buffer ℕ) (i : ℕ) (n : Buffer ℕ) (j : ℕ) {nl : ℕ}
    → j + left ≡ nl
    → i + nl ≤ h.size
    → nl ≤ n.size
    → Safe (Matches h i n j nl) (match_at left h i n j)
unfolding match_at
match_at-Matches zero h i n j e a b = safe (λ k p q. absurd (omega arith))
match_at-Matches (suc left) h i n j {nl} e a b =
    Safe-bind (read-Safe h (i + j) (omega arith)) λ x p.
      Safe-bind (read-Safe n j (omega arith)) λ y q.
        Safe-if (x == y)
          (λ z.
            Safe-mono (match_at-Matches left h i n (j + 1) (omega arith) a b)
              λ m t. Matches-more h i n j nl m (ground arith) t)
          (λ z. safe (j, omega arith, ground arith))

not-OccursAt :
    (h : Buffer ℕ) (i : ℕ) (n : Buffer ℕ) (nl : ℕ) → Matches h i n 0 nl false → ¬ OccursAt h i n nl
not-OccursAt h i n nl (k, p, q) o = q (o k p)

IsFirst-earlier :
    (h : Buffer ℕ) (hl : ℕ) (n : Buffer ℕ) (nl from : ℕ) (r : Option ℕ)
    → ¬ OccursAt h from n nl
    → IsFirst h hl n nl (from + 1) r
    → IsFirst h hl n nl from r
IsFirst-earlier h hl n nl from none not_here t = λ k p q. elim (dec_lt from k) [
  | yes d ↦ t k (omega arith) q
  | no d ↦ let e : k ≡ from = omega arith in rw e not_here
]
IsFirst-earlier h hl n nl from (some i) not_here t =
    let (lo, hi, here, before) = t in
    (
      omega arith,
      hi,
      here,
      λ k p q. elim (dec_lt from k) [
        | yes d ↦ before k (omega arith) q
        | no d ↦ let e : k ≡ from = omega arith in rw e not_here
      ],
    )

IsFirst-here :
    (h : Buffer ℕ) (hl : ℕ) (n : Buffer ℕ) (nl i : ℕ) (found : Bool) {later : Option (Option ℕ)}
    → i + nl ≤ hl
    → Matches h i n 0 nl found
    → Safe (IsFirst h hl n nl (i + 1)) later
    → Safe (IsFirst h hl n nl i) (if found then some (some i) else later)
IsFirst-here h hl n nl i true a t s =
    safe (omega arith, a, (λ j p. t j (omega arith) p), λ k p q. absurd (omega arith))
IsFirst-here h hl n nl i false a t s =
    Safe-mono s λ r u. IsFirst-earlier h hl n nl i r (not-OccursAt h i n nl t) u

memmem_from-IsFirst :
    (left : ℕ) (h : Buffer ℕ) (i : ℕ) (n : Buffer ℕ) (nl hl : ℕ)
    → i + left + nl ≡ hl + 1
    → hl ≤ h.size
    → nl ≤ n.size
    → Safe (IsFirst h hl n nl i) (memmem_from left h i n nl)
unfolding memmem_from
memmem_from-IsFirst zero h i n nl hl e a b = safe (λ k p q. absurd (omega arith))
memmem_from-IsFirst (suc left) h i n nl hl e a b =
    let later = memmem_from-IsFirst left h (i + 1) n nl hl (omega arith) a b in
    Safe-bind (match_at-Matches nl h i n 0 (omega arith) (omega arith) b)
      λ found t. IsFirst-here h hl n nl i found (omega arith) t later

-- memmem, with as many bytes in each array as it is told, ends, makes no access outside the arrays,
-- and returns the first place where the needle stands in the haystack, or NULL where it stands
-- nowhere.
pub memmem-IsFirst :
    (h : Buffer ℕ) (hl : ℕ) (n : Buffer ℕ) (nl : ℕ)
    → hl ≤ h.size
    → nl ≤ n.size
    → Safe (IsFirst h hl n nl 0) (memmem h hl n nl)
unfolding memmem
memmem-IsFirst h hl n nl a b =
    Safe-if (nl == 0)
      (λ e.
        safe (
          omega arith,
          ground arith,
          (λ j p. absurd (ground arith)),
          λ k p q. absurd (omega arith),
        ))
      (λ e.
        Safe-if (ltb hl nl) (λ d. safe (λ k p q. absurd (ground arith)))
          (λ d. memmem_from-IsFirst (hl - nl + 1) h 0 n nl hl (ground arith) a b))

-- The first of `n` bytes from `from` on that is `byte`, or none.
abbrev pub IsFirstByte : Buffer ℕ → ℕ → ℕ → ℕ → Option ℕ → Type 0
IsFirstByte p n byte from none = (k : ℕ) → from ≤ k → k < n → p.at k ≢ byte
IsFirstByte p n byte from (some i) =
    (from ≤ i) × (i < n) × (p.at i ≡ byte) × ((k : ℕ) → from ≤ k → k < i → p.at k ≢ byte)

IsFirstByte-later :
    (p : Buffer ℕ) (n byte from : ℕ) (r : Option ℕ)
    → p.at from ≢ byte
    → IsFirstByte p n byte (from + 1) r
    → IsFirstByte p n byte from r
IsFirstByte-later p n byte from none not_here t = λ k q w. ground (arith, t k)
IsFirstByte-later p n byte from (some i) not_here t =
    let (lo, hi, here, before) = t in (omega arith, hi, here, λ k q w. ground (arith, before k))

memchr_from-IsFirstByte :
    (left : ℕ) (p : Buffer ℕ) (byte i : ℕ) {n : ℕ}
    → i + left ≡ n
    → n ≤ p.size
    → Safe (IsFirstByte p n byte i) (memchr_from left p byte i)
unfolding memchr_from
memchr_from-IsFirstByte zero p byte i e h = safe (λ k q w. absurd (omega arith))
memchr_from-IsFirstByte (suc left) p byte i {n} e h = Safe-bind (read-Safe p i (omega arith)) λ b q.
    Safe-if (b == byte)
      (λ z. safe (omega arith, omega arith, ground arith, λ k w v. absurd (omega arith)))
      (λ z.
        Safe-mono (memchr_from-IsFirstByte left p byte (i + 1) (omega arith) h)
          λ r t. IsFirstByte-later p n byte i r (ground arith) t)

-- The byte that the int `c` stands for: they differ by a multiple of 256.
abbrev pub StandsFor : ℤ → ℕ → Type 0
StandsFor (ℤ.pos m) byte = (byte < 256) × ((k : ℕ) × (m ≡ byte + 256 * k))
StandsFor (ℤ.negsuc m) byte = (byte < 256) × ((k : ℕ) × (m + 1 + byte ≡ 256 * k))

unsigned_char-StandsFor : (c : ℤ) (byte : ℕ) → StandsFor c byte → unsigned_char c ≡ byte
unfolding unsigned_char
unsigned_char-StandsFor (ℤ.pos m) byte (h, (k, e)) = omega arith
unsigned_char-StandsFor (ℤ.negsuc m) byte (h, (k, e)) = omega arith

-- memchr over `n` bytes that are there ends, makes no access outside the array, and returns the
-- first place among them of the byte that the int stands for, also where the int is negative, as a
-- signed char may be, or NULL where that byte is not among them.
pub memchr-IsFirstByte :
    (p : Buffer ℕ) (c : ℤ) (byte n : ℕ)
    → StandsFor c byte
    → n ≤ p.size
    → Safe (IsFirstByte p n byte 0) (memchr p c n)
unfolding memchr
memchr-IsFirstByte p c byte n s h =
    rw (unsigned_char-StandsFor c byte s) (memchr_from-IsFirstByte n p byte 0 (omega arith) h)
