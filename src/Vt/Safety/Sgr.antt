-- ===== src/Vt/Safety/Sgr.antt =====
-- SGR reads only parameters that are there, and changes nothing but the rendition.
use u.Common.{
  ℕ, zero, suc, ◌+◌, ◌≤◌, ◌<◌, ◌≡◌, refl, ap, ◌∙◌, Option, some, none, ◌&&◌, arith, Safe, safe,
  Safe-bind, Safe-mono, Safe-if, ltb, leb, ◌==◌, if_either, ltb→lt,
}
use mathlib.Core.Option
use u.Common.Buffer.{Buffer, read-Safe}
use u.Vt.Types.{Screen, VtParser}
use u.Vt.Sgr.{sgr_attr, sgr_colour, sgr_plain, sgr_extended, sgr_step, sgr_loop, handle_sgr}
use u.Vt.Safety.{IsValid, ParserValid}
use u.Vt.Safety.Control.{with_scr}

-- A screen that differs from `s` in the rendition alone.
pub record Coloured (s t : Screen) : Type 0 where
  pub same : t ≡ record s { cur_fg = t.cur_fg; cur_bg = t.cur_bg; cur_attrs = t.cur_attrs }

coloured :
    (s : Screen) (fg bg attrs : ℕ)
    → Coloured s (record s { cur_fg = fg; cur_bg = bg; cur_attrs = attrs })
coloured s fg bg attrs = record { same = refl }

sgr_colour-Coloured : (s : Screen) (v : ℕ) → Coloured s (sgr_colour s v)
unfolding sgr_colour
sgr_colour-Coloured s v = if_either (Coloured s) (leb 30 v && leb v 37) (coloured s _ _ _) (
    if_either (Coloured s) (leb 40 v && leb v 47) (coloured s _ _ _) (
      if_either (Coloured s) (leb 90 v && leb v 97) (coloured s _ _ _)
        (if_either (Coloured s) (leb 100 v && leb v 107) (coloured s _ _ _) (coloured s _ _ _))))

pub Coloured-trans : {s t u : Screen} → Coloured s t → Coloured t u → Coloured s u
Coloured-trans {u} p q = record {
  same =
      q.same
      ∙ ap {A = Screen}
          (λ x. record x { cur_fg = u.cur_fg; cur_bg = u.cur_bg; cur_attrs = u.cur_attrs }) p.same;
}

pub Coloured-IsValid : {s t : Screen} → IsValid s → Coloured s t → IsValid t
Coloured-IsValid v c = rw c.same (ground arith)

-- a screen, if there is one, that differs from `s` in the rendition alone
abbrev MayColour : Screen → Option Screen → Type 0
MayColour s none = Unit
MayColour s (some t) = Coloured s t

sgr_attr-MayColour : (s : Screen) (v : ℕ) → MayColour s (sgr_attr s v)
unfolding sgr_attr
sgr_attr-MayColour s v = if_either (MayColour s) (v == 0) (coloured s _ _ _) (
    if_either (MayColour s) (v == 1) (coloured s _ _ _) (
      if_either (MayColour s) (v == 2) (coloured s _ _ _) (
        if_either (MayColour s) (v == 3) (coloured s _ _ _) (
          if_either (MayColour s) (v == 4) (coloured s _ _ _) (
            if_either (MayColour s) (v == 5) (coloured s _ _ _) (
              if_either (MayColour s) (v == 7) (coloured s _ _ _) (
                if_either (MayColour s) (v == 8) (coloured s _ _ _) (
                  if_either (MayColour s) (v == 9) (coloured s _ _ _) (
                    if_either (MayColour s) (v == 22) (coloured s _ _ _) (
                      if_either (MayColour s) (v == 23) (coloured s _ _ _) (
                        if_either (MayColour s) (v == 24) (coloured s _ _ _) (
                          if_either (MayColour s) (v == 25) (coloured s _ _ _) (
                            if_either (MayColour s) (v == 27) (coloured s _ _ _) (
                              if_either (MayColour s) (v == 28) (coloured s _ _ _) (
                                if_either (MayColour s) (v == 29) (coloured s _ _ _) (
                                  if_either (MayColour s) (v == 39) (coloured s _ _ _) (
                                    if_either (MayColour s) (v == 49) (coloured s _ _ _)
                                      tt)))))))))))))))))

get_or-Coloured :
    {s t : Screen} (o : Option Screen)
    → MayColour s o
    → Coloured s t
    → Coloured s (Option.get_or o t)
get_or-Coloured none h k = k
get_or-Coloured (some t) h k = h

sgr_plain-Coloured : (s : Screen) (v : ℕ) → Coloured s (sgr_plain s v)
unfolding sgr_plain
sgr_plain-Coloured s v =
    get_or-Coloured (sgr_attr s v) (sgr_attr-MayColour s v) (sgr_colour-Coloured s v)

sgr_extended-Safe :
    (params : Buffer ℕ) (n i old : ℕ)
    → n ≤ params.size
    → Safe (λ r. Unit) (sgr_extended params n i old)
unfolding sgr_extended
sgr_extended-Safe params n i old h =
    Safe-if (ltb (i + 2) n)
      (λ e. Safe-bind (read-Safe params (i + 1) (ground arith)) λ mode _.
        Safe-if (mode == 5)
          (λ _. Safe-bind (read-Safe params (i + 2) (ground arith)) λ v _. safe tt)
          (λ _. Safe-if (ltb (i + 4) n && mode == 2) (λ _. safe tt) (λ _. safe tt)))
      (λ _. safe tt)

sgr_step-Safe :
    (params : Buffer ℕ) (n i : ℕ) (s : Screen)
    → n ≤ params.size
    → i < n
    → Safe (λ r. Coloured s r.0) (sgr_step params n i s)
unfolding sgr_step
sgr_step-Safe params n i s h k = Safe-bind (read-Safe params i (omega arith)) λ v _.
    Safe-if (v == 38)
      (λ _. Safe-bind (sgr_extended-Safe params n i s.cur_fg h) λ r _. safe (coloured s _ _ _))
      λ _.
        Safe-if (v == 48)
          (λ _. Safe-bind (sgr_extended-Safe params n i s.cur_bg h) λ r _. safe (coloured s _ _ _))
          (λ _. safe (sgr_plain-Coloured s v))

sgr_loop-Safe :
    (fuel : ℕ) (params : Buffer ℕ) (n i : ℕ) (s : Screen)
    → n ≤ params.size
    → Safe (Coloured s) (sgr_loop fuel params n i s)
unfolding sgr_loop
sgr_loop-Safe zero params n i s h = safe (coloured s _ _ _)
sgr_loop-Safe (suc fuel) params n i s h =
    Safe-if (ltb i n)
      (λ e.
        Safe-bind (sgr_step-Safe params n i s h (ltb→lt i n e))
          λ r c. Safe-mono (sgr_loop-Safe fuel params n r.1 r.0 h) λ t c'. Coloured-trans c c')
      (λ _. safe (coloured s _ _ _))

-- SGR succeeds, and changes the rendition alone.
pub handle_sgr-Safe :
    (p : VtParser)
    → ParserValid p
    → Safe
        (λ q. ParserValid q × (q ≡ record p { scr = q.scr }) × Coloured p.scr q.scr)
        (handle_sgr p)
unfolding handle_sgr
handle_sgr-Safe p v =
    Safe-if (p.num_params == 0) (λ _. safe (ground arith, refl, coloured p.scr _ _ _))
      λ _.
        Safe-bind (sgr_loop-Safe p.num_params p.params p.num_params 0 p.scr (omega arith))
          λ t c. safe (with_scr t v (Coloured-IsValid v.screen c), refl, c)
