-- ===== src/Vt/Reflow/Decode.antt =====
-- What the scrollback holds as text comes back as cells (_lib/vt.c, decode_text).
use native.Mathlib.Decide.{dec_lt}
use mathlib.Core.Path.{sym, ◌∙◌}
use mathlib.Core.List.{append_assoc, append-nil}
use u.Common.{
  ℕ, zero, suc, ◌+◌, ◌-◌, ◌/◌, ◌%◌, ◌≤◌, ◌<◌, ◌≡◌, refl, true, false, Option, none, some, List, [],
  ◌∷◌, ◌++◌, length, length-append, arith, ltb, ◌==◌, if◌then◌else◌, All, Bool-cases, inl, inr,
}
use u.Vt.Types.{Cell}
use u.Vt.Width.{cp_width}
use u.Vt.Scrollback.{utf8_encode}
use u.Vt.Utf8.Bytes.{
  lead_two, tail_byte, lead_three, lead_four, encoded_two, encoded_three, encoded_four, joined_two,
}
use u.Vt.Safety.Put.{cp_width-le}
use u.Vt.Utf8.RoundTrip.{encode_all}
use u.Vt.Reflow.{lead_byte, join_bytes, char_cells, decode_loop, decode_text}

-- The cells of one character: none, one, or a pair.
unfoldable pub cells_of_char : ℕ → List Cell
cells_of_char cp = if cp_width cp == 0 then [] else char_cells cp (cp_width cp)

unfoldable pub cells_of : List ℕ → List Cell
cells_of [] = []
cells_of (cp ∷ cps) = cells_of_char cp ++ cells_of cps

-- The bytes `bytes` start with the character `cp`, as `decode_text` reads it, and go on with `rest`.
record StartsWith (cp : ℕ) (bytes rest : List ℕ) : Type 0 where
  b0 : ℕ
  more : List ℕ
  bytes_eq : bytes ≡ b0 ∷ more
  joined_eq : join_bytes ((lead_byte b0).1 - 1) (lead_byte b0).0 more ≡ (cp, rest)

StartsWith-one : (cp : ℕ) (rest : List ℕ) → cp < 0x80 → StartsWith cp (utf8_encode cp ++ rest) rest
unfolding utf8_encode lead_byte join_bytes
StartsWith-one cp rest h = record {
  b0 = cp;
  more = rest;
  bytes_eq = ground arith;
  joined_eq = ground arith;
}

StartsWith-two :
    (cp : ℕ) (rest : List ℕ) → 0x80 ≤ cp → cp < 0x800 → StartsWith cp (utf8_encode cp ++ rest) rest
unfolding lead_byte join_bytes
StartsWith-two cp rest h k = rw (encoded_two cp h k) (record {
  b0 = 192 + cp / 64;
  more = (128 + cp % 64) ∷ rest;
  bytes_eq = refl;
  joined_eq =
      ground
        (arith, lead_two (cp / 64) (omega arith), tail_byte (cp % 64) (omega arith), joined_two cp);
})

StartsWith-three :
    (cp : ℕ) (rest : List ℕ)
    → 0x800 ≤ cp
    → cp < 0x10000
    → StartsWith cp (utf8_encode cp ++ rest) rest
unfolding lead_byte join_bytes
StartsWith-three cp rest h k = rw (encoded_three cp h k) (record {
  b0 = 224 + cp / 4096;
  more = (128 + cp / 64 % 64) ∷ (128 + cp % 64) ∷ rest;
  bytes_eq = refl;
  joined_eq = ground (
    arith,
    lead_three (cp / 4096) (omega arith),
    tail_byte (cp / 64 % 64) (omega arith),
    tail_byte (cp % 64) (omega arith),
    joined_two (cp / 64),
    joined_two cp,
  );
})

StartsWith-four :
    (cp : ℕ) (rest : List ℕ)
    → 0x10000 ≤ cp
    → cp < 0x200000
    → StartsWith cp (utf8_encode cp ++ rest) rest
unfolding lead_byte join_bytes
StartsWith-four cp rest h k = rw (encoded_four cp h k) (record {
  b0 = 240 + cp / 262144;
  more = (128 + cp / 4096 % 64) ∷ (128 + cp / 64 % 64) ∷ (128 + cp % 64) ∷ rest;
  bytes_eq = refl;
  joined_eq = ground (
    arith,
    lead_four (cp / 262144) (omega arith),
    tail_byte (cp / 4096 % 64) (omega arith),
    tail_byte (cp / 64 % 64) (omega arith),
    tail_byte (cp % 64) (omega arith),
    joined_two (cp / 4096),
    joined_two (cp / 64),
    joined_two cp,
  );
})

StartsWith-encode :
    (cp : ℕ) (rest : List ℕ) → cp < 0x200000 → StartsWith cp (utf8_encode cp ++ rest) rest
StartsWith-encode cp rest h = elim (dec_lt cp 0x80) [
  | yes a ↦ StartsWith-one cp rest a
  | no a ↦ elim (dec_lt cp 0x800) [
    | yes b ↦ StartsWith-two cp rest (omega arith) b
    | no b ↦ elim (dec_lt cp 0x10000) [
      | yes c ↦ StartsWith-three cp rest (omega arith) c
      | no c ↦ StartsWith-four cp rest (omega arith) h
    ]
  ]
]

pub length-cells_of_char : (cp : ℕ) → length (cells_of_char cp) ≡ cp_width cp
unfolding cells_of_char char_cells
length-cells_of_char cp = ground (arith, cp_width-le cp)

length-utf8_encode-pos : (cp : ℕ) → 1 ≤ length (utf8_encode cp)
unfolding utf8_encode
length-utf8_encode-pos cp = ground arith

cells_of_char-zero : (cp : ℕ) → (cp_width cp == 0) ≡ true → cells_of_char cp ≡ []
unfolding cells_of_char
cells_of_char-zero cp e = rw e refl

pub cells_of_char-pos :
    (cp : ℕ) → (cp_width cp == 0) ≡ false → cells_of_char cp ≡ char_cells cp (cp_width cp)
unfolding cells_of_char
cells_of_char-pos cp e = rw e refl

decode_step :
    (fuel cap : ℕ) (out : List Cell) (b0 : ℕ) (more : List ℕ) (cp : ℕ) (rest : List ℕ)
    → join_bytes ((lead_byte b0).1 - 1) (lead_byte b0).0 more ≡ (cp, rest)
    → decode_loop (suc fuel) cap out (b0 ∷ more) ≡ (
        if cp_width cp == 0
        then decode_loop fuel cap out rest
        else (if ltb cap (length out + cp_width cp)
            then none
            else decode_loop fuel cap (out ++ char_cells cp (cp_width cp)) rest))
unfolding decode_loop
decode_step fuel cap out b0 more cp rest e = rw e refl

abbrev fitted : ℕ → List Cell → List Cell → Option (List Cell)
fitted cap out cells = if ltb cap (length out + length cells) then none else some (out ++ cells)

-- A character that fits is followed by the others; if it does not fit, nor do all.
fitted-append :
    (cap : ℕ) (out here later : List Cell) (taken : Option (List Cell))
    → (length (out ++ here) ≤ cap → taken ≡ fitted cap (out ++ here) later)
    → (if ltb cap (length out + length here) then none else taken) ≡ fitted cap out (here ++ later)
fitted-append cap out here later taken k =
    let e = length-append here later in
    let e' = length-append out here in
    elim (Bool-cases (ltb cap (length out + length here))) [
      | inl d ↦ ground (arith, e)
      | inr d ↦ rw (d, k (ground (arith, e')), append_assoc) (ground (arith, e, e'))
    ]

decode_loop-encode_all :
    (fuel cap : ℕ) (out : List Cell) (cps : List ℕ)
    → All (λ cp. cp < 0x200000) cps
    → length (encode_all cps) ≤ fuel
    → length out ≤ cap
    → decode_loop fuel cap out (encode_all cps) ≡ fitted cap out (cells_of cps)
unfolding encode_all cells_of decode_loop
decode_loop-encode_all fuel cap out [] h f l = rw append-nil (ground arith)
decode_loop-encode_all zero cap out (cp ∷ cps) h f l =
    let p = length-utf8_encode-pos cp in
    let q = length-append (utf8_encode cp) (encode_all cps) in ground arith
decode_loop-encode_all (suc fuel) cap out (cp ∷ cps) h f l =
    let p = length-utf8_encode-pos cp in
    let q = length-append (utf8_encode cp) (encode_all cps) in
    let s = StartsWith-encode cp (encode_all cps) h.0 in
    let n = length-cells_of_char cp in
    rw s.bytes_eq (
      decode_step fuel cap out s.b0 s.more cp (encode_all cps) s.joined_eq
      ∙ elim (Bool-cases (cp_width cp == 0)) [
        | inl z ↦
            rw (z, cells_of_char-zero cp z)
              (decode_loop-encode_all fuel cap out cps h.1 (omega arith) l)
        | inr z ↦
            rw (z, sym (cells_of_char-pos cp z), sym n)
              (fitted-append cap out (cells_of_char cp) (cells_of cps) _ λ fits.
                decode_loop-encode_all fuel cap (out ++ cells_of_char cp) cps h.1 (omega arith)
                  fits)
      ])

-- For a text that is the encoding of codepoints below 0x200000: `decode_text` gives the cells that
-- the characters take, none for a character of width 0 and a pair for one of width 2, in order, when
-- these are at most `cap`, and returns -1 otherwise.
pub decode_text-encode_all :
    (cps : List ℕ) (cap : ℕ)
    → All (λ cp. cp < 0x200000) cps
    → decode_text (encode_all cps) cap
      ≡ (if ltb cap (length (cells_of cps)) then none else some (cells_of cps))
unfolding decode_text
decode_text-encode_all cps cap h =
    let e =
      decode_loop-encode_all (length (encode_all cps)) cap [] cps h (omega arith) (omega arith) in
    ground (arith, e)
