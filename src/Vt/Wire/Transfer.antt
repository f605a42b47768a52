-- ===== src/Vt/Wire/Transfer.antt =====
-- The loops over write and read (_lib/vt.c, vt_write_all and vt_read_all; tmux/session.c has the
-- same). What the kernel answers is a list, one answer for each call.
use u.Common.{
  ℕ, zero, suc, ◌+◌, ◌-◌, ◌≤◌, ◌≡◌, refl, sym, ap, ◌∙◌, Bool, true, false, List, [], ◌∷◌, ◌++◌,
  arith, length, take,
}
use mathlib.Core.List.{append_assoc, append-nil}

-- A call moves some bytes, is interrupted by a signal (EINTR), or fails.
pub data Answer : Type 0 where
  moved : ℕ → Answer
  interrupted failed : Answer

-- How a loop ends: with 0, with -1, or not yet, in a call that has not returned.
pub data Outcome : Type 0 where
  finished error pending : Outcome

pub record Sent : Type 0 where
  pub out : List ℕ
  pub left : List ℕ
  pub outcome : Outcome

abbrev pub drop : ℕ → List ℕ → List ℕ
drop zero xs = xs
drop (suc n) [] = []
drop (suc n) (x ∷ xs) = drop n xs

-- `vt_write_all`, with the bytes written so far.
unfoldable pub write_all : List Answer → List ℕ → List ℕ → Sent
write_all answers out [] = record { out = out; left = []; outcome = finished }
write_all [] out (b ∷ buf) = record { out = out; left = b ∷ buf; outcome = pending }
write_all (moved n ∷ answers) out (b ∷ buf) =
    write_all answers (out ++ take n (b ∷ buf)) (drop n (b ∷ buf))
write_all (interrupted ∷ answers) out (b ∷ buf) = write_all answers out (b ∷ buf)
write_all (failed ∷ answers) out (b ∷ buf) = record { out = out; left = b ∷ buf; outcome = error }

pub record Received : Type 0 where
  pub buf : List ℕ
  pub rest : List ℕ
  pub outcome : Outcome

-- `vt_read_all` of `n` bytes from a stream, with the bytes read so far. A call that moves nothing is
-- the end of the stream.
unfoldable pub read_all : List Answer → List ℕ → ℕ → List ℕ → Received
read_all answers buf zero stream = record { buf = buf; rest = stream; outcome = finished }
read_all [] buf (suc n) stream = record { buf = buf; rest = stream; outcome = pending }
read_all (moved zero ∷ answers) buf (suc n) stream = record {
  buf = buf;
  rest = stream;
  outcome = error;
}
read_all (moved (suc k) ∷ answers) buf (suc n) stream =
    read_all answers (buf ++ take (suc k) stream) (n - k) (drop (suc k) stream)
read_all (interrupted ∷ answers) buf (suc n) stream = read_all answers buf (suc n) stream
read_all (failed ∷ answers) buf (suc n) stream = record {
  buf = buf;
  rest = stream;
  outcome = error;
}

take-append-drop : (n : ℕ) (xs : List ℕ) → take n xs ++ drop n xs ≡ xs
take-append-drop zero xs = refl
take-append-drop (suc n) [] = refl
take-append-drop (suc n) (x ∷ xs) = ap (◌∷◌ x) (take-append-drop n xs)

length-drop : (n : ℕ) (xs : List ℕ) → length (drop n xs) ≡ length xs - n
length-drop zero xs = omega arith
length-drop (suc n) [] = omega arith
length-drop (suc n) (x ∷ xs) = omega (arith, length-drop n xs)

-- The bytes that went out, and those left, are the buffer behind what was there.
write_all_keeps :
    (answers : List Answer) (out buf : List ℕ)
    → (write_all answers out buf).out ++ (write_all answers out buf).left ≡ out ++ buf
unfolding write_all
write_all_keeps answers out [] = refl
write_all_keeps [] out (b ∷ buf) = refl
write_all_keeps (moved n ∷ answers) out (b ∷ buf) =
    write_all_keeps answers (out ++ take n (b ∷ buf)) (drop n (b ∷ buf))
    ∙ append_assoc out (take n (b ∷ buf)) (drop n (b ∷ buf))
    ∙ ap (λ r. out ++ r) (take-append-drop n (b ∷ buf))
write_all_keeps (interrupted ∷ answers) out (b ∷ buf) = write_all_keeps answers out (b ∷ buf)
write_all_keeps (failed ∷ answers) out (b ∷ buf) = refl

-- Reading loses and reorders nothing: what was read, and the stream that is left, are the stream.
pub read_all_keeps :
    (answers : List Answer) (buf : List ℕ) (n : ℕ) (stream : List ℕ)
    → (read_all answers buf n stream).buf ++ (read_all answers buf n stream).rest ≡ buf ++ stream
unfolding read_all
read_all_keeps answers buf zero stream = refl
read_all_keeps [] buf (suc n) stream = refl
read_all_keeps (moved zero ∷ answers) buf (suc n) stream = refl
read_all_keeps (moved (suc k) ∷ answers) buf (suc n) stream =
    read_all_keeps answers (buf ++ take (suc k) stream) (n - k) (drop (suc k) stream)
    ∙ append_assoc buf (take (suc k) stream) (drop (suc k) stream)
    ∙ ap (λ r. buf ++ r) (take-append-drop (suc k) stream)
read_all_keeps (interrupted ∷ answers) buf (suc n) stream =
    read_all_keeps answers buf (suc n) stream
read_all_keeps (failed ∷ answers) buf (suc n) stream = refl

-- How many of the answers move at least one byte.
unfoldable pub moves : List Answer → ℕ
moves [] = 0
moves (moved zero ∷ answers) = moves answers
moves (moved (suc n) ∷ answers) = 1 + moves answers
moves (interrupted ∷ answers) = moves answers
moves (failed ∷ answers) = moves answers

unfoldable pub never_fails : List Answer → Bool
never_fails [] = true
never_fails (moved n ∷ answers) = never_fails answers
never_fails (interrupted ∷ answers) = never_fails answers
never_fails (failed ∷ answers) = false

write_all_progress :
    (answers : List Answer) (out buf : List ℕ)
    → never_fails answers ≡ true
    → length buf ≤ moves answers
    → ((write_all answers out buf).left ≡ []) × ((write_all answers out buf).outcome ≡ finished)
unfolding write_all moves never_fails
write_all_progress answers out [] f h = (refl, refl)
write_all_progress [] out (b ∷ buf) f h = absurd (omega (arith, h))
write_all_progress (moved zero ∷ answers) out (b ∷ buf) f h =
    write_all_progress answers (out ++ []) (b ∷ buf) f h
write_all_progress (moved (suc n) ∷ answers) out (b ∷ buf) f h =
    write_all_progress answers (out ++ take (suc n) (b ∷ buf)) (drop n buf) f
      (omega (arith, h, length-drop n buf))
write_all_progress (interrupted ∷ answers) out (b ∷ buf) f h =
    write_all_progress answers out (b ∷ buf) f h
write_all_progress (failed ∷ answers) out (b ∷ buf) f h = absurd (cc f)

-- However the kernel cuts and interrupts the calls, if no call fails and as many of them move a byte
-- as there are bytes, the loop returns 0 with the whole buffer written, in order.
pub write_all_finishes :
    (answers : List Answer) (buf : List ℕ)
    → never_fails answers ≡ true
    → length buf ≤ moves answers
    → ((write_all answers [] buf).outcome ≡ finished) × ((write_all answers [] buf).out ≡ buf)
write_all_finishes answers buf f h =
    let (e, d) = write_all_progress answers [] buf f h in
    let k = write_all_keeps answers [] buf in (d, sym (append-nil _) ∙ rw e at k)
