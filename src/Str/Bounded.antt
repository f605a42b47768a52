-- ===== src/Str/Bounded.antt =====
-- What strlcpy and strlcat promise (_lib/str.h): a string in at most `dsize` bytes, and the length
-- that there would be without a bound.
use native.Mathlib.Decide.{dec_lt}
use u.Common.{
  ℕ, zero, suc, ◌+◌, ◌-◌, ◌≤◌, ◌<◌, ◌≡◌, ◌≢◌, ◌==◌, ltb, if◌then◌else◌, inl, inr, arith, Safe, safe,
  Safe-bind, Safe-if, Safe-mono,
}
use u.Common.Buffer.{Buffer, read-Safe}
use u.Str.{strlcpy, strlcat, find_end, append_at}
use u.Str.Strings.{IsString}
use u.Str.Copy.{IsCopied, copy-IsCopied}

abbrev pub shorter : ℕ → ℕ → ℕ
shorter a b = if ltb a b then a else b

-- `d` is `dst`, whose string has `m` bytes, followed by the string `src` of `n` bytes, in `dsize`
-- bytes; no byte past these changes.
pub record IsJoined (dst src : Buffer ℕ) (m n dsize : ℕ) (d : Buffer ℕ) : Type 0 where
  pub size_eq : d.size ≡ dst.size
  pub string : IsString d (shorter (m + n) (dsize - 1))
  pub first : (k : ℕ) → k < m → d.at k ≡ dst.at k
  pub second : (k : ℕ) → m ≤ k → k < shorter (m + n) (dsize - 1) → d.at k ≡ src.at (k - m)
  pub rest : (k : ℕ) → dsize ≤ k → d.at k ≡ dst.at k

IsCopied-IsJoined :
    (dst src : Buffer ℕ) (m n nleft : ℕ) (d : Buffer ℕ)
    → IsString src n
    → m + suc nleft ≤ dst.size
    → ((k : ℕ) → k < m → dst.at k ≢ 0)
    → IsCopied dst m src 0 n nleft d
    → IsJoined dst src m n (m + suc nleft) d
IsCopied-IsJoined dst src m n nleft d v h w t = record {
  size_eq = t.size_eq;
  string = record {
    inside = ground (arith, t.size_eq);
    nul =
        t.ended (shorter (m + n) (m + suc nleft - 1)) (ground arith) (ground arith) (ground arith)
          (ground arith);
    bytes = λ k p. elim (dec_lt k m) [
      | yes q ↦ let same = t.others k (inl q) in ground (arith, w k)
      | no q ↦ let same = second k (omega arith) p in ground (arith, v.bytes (k - m))
    ];
  };
  first = λ k p. t.others k (inl p);
  second = second;
  rest = λ k p. t.others k (inr (omega arith));
}
  where
    second : (k : ℕ) → m ≤ k → k < shorter (m + n) (m + suc nleft - 1) → d.at k ≡ src.at (k - m)
    second k p q =
        let e : 0 + (k - m) ≡ k - m = omega arith in
        rw e at (t.copied k p (ground arith) (ground arith))

-- strlcpy of a string of `n` bytes into `dsize` bytes, at least one, that are there: it ends, makes
-- no access outside the arrays, returns `n`, and leaves a string of the first bytes of the source,
-- all if they fit and else `dsize - 1`; no byte past the `dsize` changes.
pub strlcpy-IsJoined :
    (dst src : Buffer ℕ) (n dsize : ℕ)
    → IsString src n
    → 1 ≤ dsize
    → dsize ≤ dst.size
    → Safe
        (λ (r : Buffer ℕ × ℕ). IsJoined dst src 0 n dsize r.0 × (r.1 ≡ n))
        (strlcpy dst src dsize)
unfolding strlcpy
strlcpy-IsJoined dst src n zero v h l = absurd (omega arith)
strlcpy-IsJoined dst src n (suc nleft) v h l =
    Safe-mono (copy-IsCopied nleft dst 0 src 0 v (omega arith) (omega arith)) λ r t.
      let e : 0 + suc nleft ≡ suc nleft = omega arith in
      (
        rw e at (
            IsCopied-IsJoined dst src 0 n nleft r.0 v (omega arith) (λ k p. absurd (omega arith))
              t.0),
        t.1,
      )

find_end-Safe :
    (nleft : ℕ) (d : Buffer ℕ) (j : ℕ) {m : ℕ}
    → IsString d m
    → j ≤ m
    → m < j + nleft
    → Safe (λ r. r ≡ m) (find_end nleft d j)
unfolding find_end
find_end-Safe zero d j v h k = absurd (omega arith)
find_end-Safe (suc nleft) d j v h k = Safe-bind (read-Safe d j (omega (arith, v.inside))) λ c e.
    Safe-if (c == 0) (λ z. safe (ground (arith, v.bytes j)))
      (λ z. find_end-Safe nleft d (j + 1) v (ground (arith, v.nul)) (omega arith))

-- strlcat of a string of `n` bytes behind one of `m` bytes, whose NUL is in the first `dsize` bytes,
-- all there: it ends, makes no access outside the arrays, returns `m + n`, and leaves a string of
-- the two, cut to `dsize - 1` bytes; no byte past the `dsize` changes.
pub strlcat-IsJoined :
    (dst src : Buffer ℕ) (m n dsize : ℕ)
    → IsString dst m
    → IsString src n
    → m < dsize
    → dsize ≤ dst.size
    → Safe
        (λ (r : Buffer ℕ × ℕ). IsJoined dst src m n dsize r.0 × (r.1 ≡ m + n))
        (strlcat dst src dsize)
unfolding strlcat append_at
strlcat-IsJoined dst src m n dsize u v h l =
    Safe-bind (find_end-Safe dsize dst 0 u (omega arith) (omega arith)) λ end e.
      let left : dsize - m ≡ suc (dsize - m - 1) = omega arith in
      let all : m + suc (dsize - m - 1) ≡ dsize = omega arith in
      rw (e, left)
        (Safe-bind (copy-IsCopied (dsize - m - 1) dst m src 0 v (omega arith) (omega arith)) λ r t.
          safe (
            rw all at
                (IsCopied-IsJoined dst src m n (dsize - m - 1) r.0 v (omega arith) u.bytes t.0),
            omega (arith, t.1),
          ))
