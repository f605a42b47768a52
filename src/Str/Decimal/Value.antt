-- ===== src/Str/Decimal/Value.antt =====
-- The numeral that utoa writes is that of its number (_lib/str.h).
use native.Mathlib.Nat.{pow-suc}
use u.Common.{
  ℕ, zero, suc, ◌+◌, ◌-◌, ◌*◌, ◌/◌, ◌%◌, ◌^◌, ◌≤◌, ◌<◌, ◌≡◌, ◌≢◌, refl, ap, ◌∙◌, ◌==◌, ltb, ◌⊎◌,
  arith, Safe, safe, Safe-bind, Safe-if, Safe-mono,
}
use u.Common.Buffer.{put, write-put, Buffer, read-Safe}
use u.Str.Decimal.{put_digits, reverse_digits, utoa}

-- The number that the `n` bytes from `f i` on stand for, with the last digit first.
unfoldable pub backward : (ℕ → ℕ) → ℕ → ℕ → ℕ
backward f i zero = 0
backward f i (suc n) = (f i - b'0') + 10 * backward f (i + 1) n

-- The number that the first `n` bytes stand for.
unfoldable pub forward : (ℕ → ℕ) → ℕ → ℕ
forward f zero = 0
forward f (suc n) = forward f n * 10 + (f n - b'0')

abbrev pub IsDigit : ℕ → Type 0
IsDigit c = (b'0' ≤ c) × (c ≤ b'9')

-- From `n` on, `d` has the digits of `v`, the last one first, `m` of them; what is before is that of
-- `b`.
record IsNumeral (v : ℕ) (b : Buffer ℕ) (n : ℕ) (d : Buffer ℕ) (m : ℕ) : Type 0 where
  size_eq : d.size ≡ b.size
  more : 1 ≤ m
  value : backward d.at n m ≡ v
  digits : (k : ℕ) → n ≤ k → k < n + m → IsDigit (d.at k)
  before : (k : ℕ) → k < n → d.at k ≡ b.at k
  no_zero : 1 ≤ v → d.at (n + m - 1) ≢ b'0'

IsNumeral-last :
    (v : ℕ) (b : Buffer ℕ) (n : ℕ) → v < 10 → IsNumeral v b n (put b n (b'0' + v % 10)) 1
unfolding backward
IsNumeral-last v b n h =
    let top : n + 1 - 1 ≡ n = omega arith in
    record {
      size_eq = refl;
      more = omega arith;
      value = ground arith;
      digits = λ k p q. ground arith;
      before = λ k p. ground arith;
      no_zero = λ p. rw top (ground arith);
    }

IsNumeral-more :
    (v : ℕ) (b : Buffer ℕ) (n : ℕ) (d : Buffer ℕ) (m : ℕ)
    → 10 ≤ v
    → IsNumeral (v / 10) (put b n (b'0' + v % 10)) (n + 1) d m
    → IsNumeral v b n d (suc m)
unfolding backward
IsNumeral-more v b n d m h t =
    let here : d.at n ≡ b'0' + v % 10 = ground (arith, t.before n) in
    let top : n + suc m - 1 ≡ n + 1 + m - 1 = omega arith in
    record {
      size_eq = t.size_eq;
      more = omega arith;
      value = omega (arith, t.value, here);
      digits = λ k p q. ground (arith, t.digits k, here);
      before = λ k p. ground (arith, t.before k);
      no_zero = λ p. rw top (t.no_zero (omega arith));
    }

put_digits-IsNumeral :
    (fuel v : ℕ) (b : Buffer ℕ) (n : ℕ)
    → v < 10 ^ fuel
    → 1 ≤ fuel
    → n + fuel ≤ b.size
    → Safe
        (λ (r : Buffer ℕ × ℕ). (r.1 ≤ n + fuel) × (n < r.1) × IsNumeral v b n r.0 (r.1 - n))
        (put_digits fuel v b n)
unfolding put_digits
put_digits-IsNumeral zero v b n h o k = absurd (omega arith)
put_digits-IsNumeral (suc fuel) v b n h o k =
    Safe-bind (write-put b n (b'0' + v % 10) (omega arith)) λ b' e. rw e (
      Safe-if (v / 10 == 0)
        (λ z.
          let one : n + 1 - n ≡ 1 = omega arith in
          safe (omega arith, omega arith, rw one (IsNumeral-last v b n (ground arith))))
        (λ z.
          let big : 10 ≤ v = ground arith in
          let times = pow-suc 10 fuel in
          Safe-mono
            (put_digits-IsNumeral fuel (v / 10) (put b n (b'0' + v % 10)) (n + 1) (omega arith)
              (positive fuel v big h) (omega arith))
            λ r t.
              let (hi, lo, numeral) = t in
              let m : r.1 - n ≡ suc (r.1 - (n + 1)) = omega arith in
              (omega arith, omega arith, rw m (IsNumeral-more v b n r.0 _ big numeral))))
  where
    positive : (fuel v : ℕ) → 10 ≤ v → v < 10 ^ suc fuel → 1 ≤ fuel
    positive zero v p q = absurd (omega arith)
    positive (suc fuel) v p q = omega arith

-- `d` is `b` with the bytes from `i` to `j`, both included, in the opposite order.
record IsReversed (b : Buffer ℕ) (i j : ℕ) (d : Buffer ℕ) : Type 0 where
  size_eq : d.size ≡ b.size
  inner : (k : ℕ) → i ≤ k → k ≤ j → d.at k ≡ b.at (i + j - k)
  outer : (k : ℕ) → (k < i) ⊎ (j < k) → d.at k ≡ b.at k

IsReversed-same : (b : Buffer ℕ) (i j : ℕ) → j ≤ i → IsReversed b i j b
IsReversed-same b i j h = record {
  size_eq = refl;
  inner = λ k p q. let e : i + j - k ≡ k = omega arith in rw e refl;
  outer = λ k p. refl;
}

IsReversed-swap :
    (b : Buffer ℕ) (i j : ℕ) (d : Buffer ℕ)
    → i < j
    → IsReversed (put (put b i (b.at j)) j (b.at i)) (i + 1) (j - 1) d
    → IsReversed b i j d
IsReversed-swap b i j d h t = record {
  size_eq = t.size_eq;
  inner = λ k p q.
      let e : i + 1 + (j - 1) - k ≡ i + j - k = omega arith in
      let e' : i + j - i ≡ j = omega arith in
      let e'' : i + j - j ≡ i = omega arith in ground (arith, t.inner k, t.outer k, e, e', e'');
  outer = λ k p. ground (arith, t.outer k);
}

reverse_digits-IsReversed :
    (fuel : ℕ) (b : Buffer ℕ) (i j : ℕ)
    → j ≤ i + fuel
    → j < b.size
    → Safe (IsReversed b i j) (reverse_digits fuel b i j)
unfolding reverse_digits
reverse_digits-IsReversed zero b i j h k =
    Safe-if (ltb i j) (λ e. absurd (ground arith))
      (λ e. safe (IsReversed-same b i j (ground arith)))
reverse_digits-IsReversed (suc fuel) b i j h k =
    Safe-if (ltb i j)
      (λ e.
        let before : i < j = ground arith in
        Safe-bind (read-Safe b i (omega arith)) λ c p. Safe-bind (read-Safe b j k) λ d q.
          Safe-bind (write-put b i d (omega arith)) λ b1 w.
            rw (w, p, q)
              (Safe-bind (write-put (put b i (b.at j)) j (b.at i) k) λ b2 w'. rw w' (
                Safe-mono
                  (reverse_digits-IsReversed fuel (put (put b i (b.at j)) j (b.at i)) (i + 1)
                    (j - 1) (omega arith) (omega arith))
                  λ r t. IsReversed-swap b i j r before t)))
      (λ e. safe (IsReversed-same b i j (ground arith)))

forward-backward :
    (f g : ℕ → ℕ) (i n : ℕ)
    → ((k : ℕ) → k < n → f k ≡ g (i + n - 1 - k))
    → forward f n ≡ backward g i n
unfolding forward backward
forward-backward f g i zero h = refl
forward-backward f g i (suc n) h =
    let last : i + suc n - 1 - n ≡ i = omega arith in
    let head : f n ≡ g i = h n (omega arith) ∙ ap g last in
    let rest = forward-backward f g (i + 1) n λ k p.
      let same : i + suc n - 1 - k ≡ i + 1 + n - 1 - k = omega arith in
      h k (omega arith) ∙ ap g same in
    omega (arith, head, rest)

-- The first `n` bytes of `d` are the decimal numeral of `v`.
pub record IsDecimal (v : ℕ) (d : Buffer ℕ) (n : ℕ) : Type 0 where
  pub some_digit : 1 ≤ n
  pub fits : n ≤ 20
  pub value : forward d.at n ≡ v
  pub digits : (k : ℕ) → k < n → IsDigit (d.at k)
  pub no_leading_zero : 1 ≤ v → d.at 0 ≢ b'0'

IsDecimal-reversed :
    (v : ℕ) (b c d : Buffer ℕ) (n : ℕ)
    → n ≤ 20
    → IsNumeral v b 0 c n
    → IsReversed c 0 (n - 1) d
    → IsDecimal v d n
IsDecimal-reversed v b c d n h t r =
    let first : 0 + n - 1 ≡ 0 + (n - 1) - 0 = omega (arith, t.more) in
    let start = r.inner 0 (omega arith) (omega arith) in
    record {
      some_digit = t.more;
      fits = h;
      value =
          forward-backward d.at c.at 0 n (λ k p.
            let same : 0 + (n - 1) - k ≡ 0 + n - 1 - k = omega arith in
            r.inner k (omega arith) (omega arith) ∙ ap c.at same)
          ∙ t.value;
      digits = λ k p.
          let e = r.inner k (omega arith) (omega arith) in
          ground (arith, e, t.digits (0 + (n - 1) - k));
      no_leading_zero = λ p. rw (start, ← first) (t.no_zero p);
    }

-- utoa of a number of 64 bits, into a buffer of at least 20 bytes, ends, writes inside the buffer,
-- and leaves the decimal numeral of the number in as many bytes as it returns: digits that stand for
-- the number, 20 at most, without a leading zero unless the number is 0.
pub utoa-IsDecimal :
    (v : ℕ) (buf : Buffer ℕ)
    → v < 18446744073709551616
    → 20 ≤ buf.size
    → Safe (λ (r : Buffer ℕ × ℕ). IsDecimal v r.0 r.1) (utoa v buf)
unfolding utoa
utoa-IsDecimal v buf h k =
    Safe-bind (put_digits-IsNumeral 20 v buf 0 (omega arith) (omega arith) (omega arith)) λ r t.
      let (hi, lo, numeral) = t in
      let all : r.1 - 0 ≡ r.1 = omega arith in
      let plain = rw all at numeral in
      Safe-bind
        (reverse_digits-IsReversed r.1 r.0 0 (r.1 - 1) (omega arith) (omega (arith, plain.size_eq)))
        λ d w. safe (IsDecimal-reversed v buf r.0 d r.1 (omega arith) plain w)
