-- ===== src/Wc.antt =====
-- The counters of wc/wc.c. An `unsigned long` has 64 bits.
mod Chunks
mod Tests
use u.Common.{
  ℕ, ◌+◌, ◌%◌, Bool, true, false, ◌||◌, Option, some, none, List, [], ◌∷◌, ◌==◌, if◌then◌else◌,
  length, bit_and,
}

-- `2 ^ 64`
abbrev pub word : ℕ
word = 18446744073709551616

pub record Counts : Type 0 where
  pub lines : ℕ
  pub words : ℕ
  pub chars : ℕ
  pub bytes : ℕ

unfoldable pub is_space : ℕ → Bool
is_space b = b == b' ' || b == 0x09 || b == 0x0A || b == 0x0D || b == 0x0B || b == 0x0C

-- The start of a codepoint: any byte that is not `10xxxxxx`.
unfoldable pub is_start : ℕ → Bool
is_start b = if bit_and b 0xC0 == 0x80 then false else true

unfoldable pub is_newline : ℕ → Bool
is_newline b = b == 0x0A

-- `x++` where the test holds
unfoldable pub bump : Bool → ℕ → ℕ
bump true x = (x + 1) % word
bump false x = x

-- One byte, with `in_word`.
unfoldable pub count_byte : Counts × Bool → ℕ → Counts × Bool
count_byte (c, in_word) b =
    let c' = record c { chars = bump (is_start b) c.chars; lines = bump (is_newline b) c.lines } in
    if is_space b
    then (c', false)
    else if in_word
    then (c', true)
    else (record c' { words = bump true c.words }, true)

unfoldable pub count_bytes : Counts × Bool → List ℕ → Counts × Bool
count_bytes s [] = s
count_bytes s (b ∷ bs) = count_bytes (count_byte s b) bs

abbrev pub no_counts : Counts
no_counts = record { lines = 0; words = 0; chars = 0; bytes = 0 }

-- The loop of `count_fd` over what its reads return: bytes, of which none is the end of the file, or
-- an error. The result is that of `count_fd`, with the counts.
unfoldable pub count_reads : Counts × Bool → List (Option (List ℕ)) → ℕ × Counts
count_reads s [] = (0, s.0)
count_reads s (none ∷ reads) = (1, s.0)
count_reads s (some [] ∷ reads) = (0, s.0)
count_reads (c, in_word) (some (b ∷ bs) ∷ reads) =
    count_reads
      (count_bytes (record c { bytes = (c.bytes + length (b ∷ bs)) % word }, in_word) (b ∷ bs))
      reads

unfoldable pub count_fd : List (Option (List ℕ)) → ℕ × Counts
count_fd reads = count_reads (no_counts, false) reads
