-- ===== src/Vt/Utf8/RoundTrip.antt =====
-- What scrollback_capture writes, utf8_feed reads (_lib/vt.c): the encoder and the decoder are
-- inverse on every codepoint of four bytes at most.
use native.Mathlib.Decide.{dec_lt}
use mathlib.Core.Path.{subst₂, sym}
use u.Common.{
  ℕ, ◌+◌, ◌*◌, ◌/◌, ◌%◌, ◌≤◌, ◌<◌, ◌≡◌, refl, Option, some, none, List, [], ◌∷◌, ◌++◌, arith, ◌==◌,
  if◌then◌else◌, ◌>>=◌, bit_or, All, Option-cases, inl, inr, ap,
}
use u.Common.Buffer.{read, write}
use u.Vt.Scrollback.{utf8_encode}
use u.Vt.Utf8.Bytes.{
  lead_two, tail_byte, lead_three, lead_four, encoded_two, encoded_three, encoded_four, joined_two,
  joined_three, joined_four,
}
use u.Vt.Utf8.{Carry, Decoded, utf8_lead, utf8_next, utf8_decode, utf8_feed}

abbrev emit : Decoded → List ℕ → List ℕ
emit (Decoded.complete cp) cps = cp ∷ cps
emit Decoded.more cps = cps
emit Decoded.invalid cps = cps

-- The codepoints that a sequence of bytes completes, as the ground state of the parser reads them.
pub utf8_run : Carry → List ℕ → Option (Carry × List ℕ)
utf8_run k [] = some (k, [])
utf8_run k (b ∷ bs) = do
  (k', d) ← utf8_feed k b
  (k'', cps) ← utf8_run k' bs
  some (k'', emit d cps)

abbrev pub between : (ℕ → ℕ) → ℕ → Carry
between f len = record { utf8_buf = record { size = 4; at = f }; utf8_len = len; utf8_want = 0 }

-- The decoder is between characters.
pub record IsClean (k : Carry) : Type 0 where
  pub size_eq : k.utf8_buf.size ≡ 4
  pub none_wanted : k.utf8_want ≡ 0

abbrev pub Reads : Carry → List ℕ → List ℕ → Type 0
Reads k bytes cps = (k' : Carry) × (utf8_run k bytes ≡ some (k', cps)) × IsClean k'

-- Runs of two, three and four bytes from a state between characters.
run_two :
    (f : ℕ → ℕ) (len a b : ℕ)
    → a < 32
    → b < 64
    → Reads (between f len) ((192 + a) ∷ (128 + b) ∷ []) (bit_or (a * 64) b ∷ [])
unfolding utf8_run utf8_feed utf8_lead utf8_next utf8_decode read write ◌>>=◌
run_two f len a b h k = (
  between (λ j. if j == 1 then 128 + b else (if j == 0 then 192 + a else f j)) 0,
  ground (arith, lead_two a h, tail_byte b k),
  omega arith,
)

run_three :
    (f : ℕ → ℕ) (len a b c : ℕ)
    → a < 16
    → b < 64
    → c < 64
    → Reads
        (between f len)
        ((224 + a) ∷ (128 + b) ∷ (128 + c) ∷ [])
        (bit_or (bit_or (a * 4096) (b * 64)) c ∷ [])
unfolding utf8_run utf8_feed utf8_lead utf8_next utf8_decode read write ◌>>=◌
run_three f len a b c h k l = (
  between
      (λ j.
        if j == 2 then 128 + c else (if j == 1 then 128 + b else (if j == 0 then 224 + a else f j)))
      0,
  ground (arith, lead_three a h, tail_byte b k, tail_byte c l),
  omega arith,
)

run_four :
    (f : ℕ → ℕ) (len a b c d : ℕ)
    → a < 8
    → b < 64
    → c < 64
    → d < 64
    → Reads
        (between f len)
        ((240 + a) ∷ (128 + b) ∷ (128 + c) ∷ (128 + d) ∷ [])
        (bit_or (bit_or (bit_or (a * 262144) (b * 4096)) (c * 64)) d ∷ [])
unfolding utf8_run utf8_feed utf8_lead utf8_next utf8_decode read write ◌>>=◌
run_four f len a b c d h k l m = (
  between
      (λ j.
        if j == 3
        then 128 + d
        else (if j == 2
            then 128 + c
            else (if j == 1 then 128 + b else (if j == 0 then 240 + a else f j))))
      0,
  ground (arith, lead_four a h, tail_byte b k, tail_byte c l, tail_byte d m),
  omega arith,
)

ascii :
    (f : ℕ → ℕ) (len cp : ℕ)
    → cp < 0x80
    → utf8_run (between f len) (utf8_encode cp) ≡ some (between f len, cp ∷ [])
unfolding utf8_run utf8_feed utf8_lead utf8_encode ◌>>=◌
ascii f len cp h = ground arith

Reads-two :
    (f : ℕ → ℕ) (len cp : ℕ)
    → 0x80 ≤ cp
    → cp < 0x800
    → Reads (between f len) (utf8_encode cp) (cp ∷ [])
Reads-two f len cp h k =
    subst₂ (λ bs x. Reads (between f len) bs (x ∷ [])) (sym (encoded_two cp h k)) (joined_two cp)
      (run_two f len (cp / 64) (cp % 64) (omega arith) (omega arith))

Reads-three :
    (f : ℕ → ℕ) (len cp : ℕ)
    → 0x800 ≤ cp
    → cp < 0x10000
    → Reads (between f len) (utf8_encode cp) (cp ∷ [])
Reads-three f len cp h k =
    subst₂ (λ bs x. Reads (between f len) bs (x ∷ [])) (sym (encoded_three cp h k))
      (joined_three cp)
      (run_three f len (cp / 4096) (cp / 64 % 64) (cp % 64) (omega arith) (omega arith)
        (omega arith))

Reads-four :
    (f : ℕ → ℕ) (len cp : ℕ)
    → 0x10000 ≤ cp
    → cp < 0x200000
    → Reads (between f len) (utf8_encode cp) (cp ∷ [])
Reads-four f len cp h k =
    subst₂ (λ bs x. Reads (between f len) bs (x ∷ [])) (sym (encoded_four cp h k)) (joined_four cp)
      (run_four f len (cp / 262144) (cp / 4096 % 64) (cp / 64 % 64) (cp % 64) (omega arith)
        (omega arith) (omega arith) (omega arith))

Reads-one :
    (f : ℕ → ℕ) (len cp : ℕ) → cp < 0x200000 → Reads (between f len) (utf8_encode cp) (cp ∷ [])
Reads-one f len cp h = elim (dec_lt cp 0x80) [
  | yes a ↦ (between f len, ascii f len cp a, omega arith)
  | no a ↦ elim (dec_lt cp 0x800) [
    | yes b ↦ Reads-two f len cp (omega arith) b
    | no b ↦ elim (dec_lt cp 0x10000) [
      | yes c ↦ Reads-three f len cp (omega arith) c
      | no c ↦ Reads-four f len cp (omega arith) h
    ]
  ]
]

emit-append : (d : Decoded) (xs ys : List ℕ) → emit d (xs ++ ys) ≡ emit d xs ++ ys
emit-append (Decoded.complete cp) xs ys = refl
emit-append Decoded.more xs ys = refl
emit-append Decoded.invalid xs ys = refl

-- A decoder between characters is one of the states above.
Reads-clean : (k : Carry) (cp : ℕ) → IsClean k → cp < 0x200000 → Reads k (utf8_encode cp) (cp ∷ [])
Reads-clean k cp clean h =
    let e : k ≡ between k.utf8_buf.at k.utf8_len = ground arith in
    rw e (Reads-one k.utf8_buf.at k.utf8_len cp h)

-- `r`, and then a run over more bytes.
abbrev go_on : List ℕ → Carry × List ℕ → Option (Carry × List ℕ)
go_on ys r = utf8_run r.0 ys >>= λ q. some (q.0, r.1 ++ q.1)

abbrev emitted : Decoded → Carry × List ℕ → Option (Carry × List ℕ)
emitted d q = some (q.0, emit d q.1)

-- A run over two pieces is a run over the first, then over the second.
utf8_run-append :
    (k : Carry) (xs ys : List ℕ) → utf8_run k (xs ++ ys) ≡ (utf8_run k xs >>= go_on ys)
unfolding utf8_run ◌>>=◌
utf8_run-append k [] ys = ground arith
utf8_run-append k (x ∷ xs) ys = split (utf8_feed k x) refl (λ m. utf8_run-append m xs ys)
  where
    later :
        (d : Decoded) (o : Option (Carry × List ℕ))
        → (o >>= go_on ys >>= emitted d) ≡ (o >>= emitted d >>= go_on ys)
    later d none = refl
    later d (some (m, cps)) = elim (Option-cases (utf8_run m ys)) [
      | inl e ↦ rw (e, ◌>>=◌)
      | inr ((m', cps'), e) ↦
          rw (e, ◌>>=◌) (ap {A = List ℕ} (λ l. some (m', l)) (emit-append d cps cps'))
    ]

    split :
        (o : Option (Carry × Decoded))
        → utf8_feed k x ≡ o
        → ((m : Carry) → utf8_run m (xs ++ ys) ≡ (utf8_run m xs >>= go_on ys))
        → utf8_run k (x ∷ (xs ++ ys)) ≡ (utf8_run k (x ∷ xs) >>= go_on ys)
    split none e ih = rw (e, ◌>>=◌)
    split (some (m, d)) e ih = rw (e, ◌>>=◌) (rw (ih m) (later d (utf8_run m xs)))

unfoldable pub encode_all : List ℕ → List ℕ
encode_all [] = []
encode_all (cp ∷ cps) = utf8_encode cp ++ encode_all cps

joined :
    (k m m' : Carry) (cp : ℕ) (cps : List ℕ)
    → utf8_run k (utf8_encode cp) ≡ some (m, cp ∷ [])
    → utf8_run m (encode_all cps) ≡ some (m', cps)
    → utf8_run k (utf8_encode cp ++ encode_all cps) ≡ some (m', cp ∷ cps)
unfolding ◌>>=◌
joined k m m' cp cps e e' =
    rw (utf8_run-append k (utf8_encode cp) (encode_all cps)) (rw (e, ◌>>=◌) (rw (e', ◌>>=◌)))

-- Decoding what was encoded gives the codepoints back, in order, and leaves the decoder between
-- characters.
pub run-encode_all :
    (k : Carry) (cps : List ℕ)
    → IsClean k
    → All (λ cp. cp < 0x200000) cps
    → Reads k (encode_all cps) cps
unfolding encode_all utf8_run
run-encode_all k [] clean h = (k, refl, clean)
run-encode_all k (cp ∷ cps) clean h =
    let (m, e, c) = Reads-clean k cp clean h.0 in
    let (m', e', c') = run-encode_all m cps c h.1 in (m', joined k m m' cp cps e e', c')
