-- ===== src/Vt/Utf8/Bytes.antt =====
-- The bytes of UTF-8 (_lib/vt.c, scrollback_capture and utf8_feed): the bit patterns of leading and
-- continuation bytes, what the encoder writes as sums, and how the decoder joins the parts.
use u.Common.{
  ℕ, ◌+◌, ◌*◌, ◌/◌, ◌%◌, ◌≤◌, ◌<◌, ◌≡◌, refl, true, false, not, [], ◌∷◌, ◌&&◌, arith, ltb, ◌==◌,
  bit_and, bit_or,
}
use u.Common.Bits.{bit_or_disjoint, bit_and_low_six, every_below, every_below_sound}
use u.Vt.Scrollback.{utf8_encode}

-- Bit patterns of the bytes, by evaluation.
pub lead_two-table :
    every_below 32 (λ x.
      not (ltb (192 + x) 0x80) && (bit_and (192 + x) 0xE0 == 0xC0) && (bit_and (192 + x) 0x1F == x))
    ≡ true
unfolding every_below
lead_two-table = refl

pub lead_two : (x : ℕ) → x < 32 → (bit_and (192 + x) 0xE0 ≡ 0xC0) × (bit_and (192 + x) 0x1F ≡ x)
lead_two x h = let t = every_below_sound 32 _ x lead_two-table h in ground arith

pub tail-table :
    every_below 64 (λ x. (bit_and (128 + x) 0xC0 == 0x80) && (bit_and (128 + x) 0x3F == x)) ≡ true
unfolding every_below
tail-table = refl

pub tail_byte : (x : ℕ) → x < 64 → (bit_and (128 + x) 0xC0 ≡ 0x80) × (bit_and (128 + x) 0x3F ≡ x)
tail_byte x h = let t = every_below_sound 64 _ x tail-table h in ground arith

pub lead_three-table :
    every_below 16 (λ x.
      not (bit_and (224 + x) 0xE0 == 0xC0)
      && (bit_and (224 + x) 0xF0 == 0xE0)
      && (bit_and (224 + x) 0x0F == x))
    ≡ true
unfolding every_below
lead_three-table = refl

pub lead_three :
    (x : ℕ)
    → x < 16
    → ((bit_and (224 + x) 0xE0 == 0xC0) ≡ false)
      × (bit_and (224 + x) 0xF0 ≡ 0xE0)
      × (bit_and (224 + x) 0x0F ≡ x)
lead_three x h = let t = every_below_sound 16 _ x lead_three-table h in ground arith

pub lead_four-table :
    every_below 8 (λ x.
      not (bit_and (240 + x) 0xE0 == 0xC0)
      && not (bit_and (240 + x) 0xF0 == 0xE0)
      && (bit_and (240 + x) 0xF8 == 0xF0)
      && (bit_and (240 + x) 0x07 == x))
    ≡ true
unfolding every_below
lead_four-table = refl

pub lead_four :
    (x : ℕ)
    → x < 8
    → ((bit_and (240 + x) 0xE0 == 0xC0) ≡ false)
      × ((bit_and (240 + x) 0xF0 == 0xE0) ≡ false)
      × (bit_and (240 + x) 0xF8 ≡ 0xF0)
      × (bit_and (240 + x) 0x07 ≡ x)
lead_four x h = let t = every_below_sound 8 _ x lead_four-table h in ground arith

-- The bytes that the encoder writes, as sums.
pub tail_byte-encoded : (x : ℕ) → bit_or 0x80 (bit_and x 0x3F) ≡ 128 + x % 64
tail_byte-encoded x = rw (bit_and_low_six x) (bit_or_disjoint 6 2 (x % 64) (omega arith))

pub encoded_two :
    (cp : ℕ) → 0x80 ≤ cp → cp < 0x800 → utf8_encode cp ≡ (192 + cp / 64) ∷ (128 + cp % 64) ∷ []
unfolding utf8_encode
encoded_two cp h k =
    ground (arith, tail_byte-encoded cp, bit_or_disjoint 6 3 (cp / 64) (omega arith))

pub encoded_three :
    (cp : ℕ)
    → 0x800 ≤ cp
    → cp < 0x10000
    → utf8_encode cp ≡ (224 + cp / 4096) ∷ (128 + cp / 64 % 64) ∷ (128 + cp % 64) ∷ []
unfolding utf8_encode
encoded_three cp h k = ground (
  arith,
  tail_byte-encoded cp,
  tail_byte-encoded (cp / 64),
  bit_or_disjoint 5 7 (cp / 4096) (omega arith),
)

pub encoded_four :
    (cp : ℕ)
    → 0x10000 ≤ cp
    → cp < 0x200000
    → utf8_encode cp
      ≡ (240 + cp / 262144) ∷ (128 + cp / 4096 % 64) ∷ (128 + cp / 64 % 64) ∷ (128 + cp % 64) ∷ []
unfolding utf8_encode
encoded_four cp h k = ground (
  arith,
  tail_byte-encoded cp,
  tail_byte-encoded (cp / 64),
  tail_byte-encoded (cp / 4096),
  bit_or_disjoint 4 15 (cp / 262144) (omega arith),
)

-- The parts that the decoder joins make up the codepoint.
pub joined_two : (cp : ℕ) → bit_or (cp / 64 * 64) (cp % 64) ≡ cp
joined_two cp = omega (arith, bit_or_disjoint 6 (cp / 64) (cp % 64) (omega arith))

pub joined_three : (cp : ℕ) → bit_or (bit_or (cp / 4096 * 4096) (cp / 64 % 64 * 64)) (cp % 64) ≡ cp
joined_three cp =
    let e : bit_or (cp / 4096 * 4096) (cp / 64 % 64 * 64) ≡ cp / 64 * 64 =
      omega (arith, bit_or_disjoint 12 (cp / 4096) (cp / 64 % 64 * 64) (omega arith)) in
    rw e (joined_two cp)

pub joined_four :
    (cp : ℕ)
    → bit_or
        (bit_or (bit_or (cp / 262144 * 262144) (cp / 4096 % 64 * 4096)) (cp / 64 % 64 * 64))
        (cp % 64)
      ≡ cp
joined_four cp =
    let e : bit_or (cp / 262144 * 262144) (cp / 4096 % 64 * 4096) ≡ cp / 4096 * 4096 =
      omega (arith, bit_or_disjoint 18 (cp / 262144) (cp / 4096 % 64 * 4096) (omega arith)) in
    rw e (joined_three cp)
