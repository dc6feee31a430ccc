-- ===== src/Base/Trim.antt =====
-- Trimming a text twice is trimming it once.
use mathlib.Core.Path.{◌≡◌, refl, sym, ap, subst, ◌∙◌}
use mathlib.Core.Bool.{Bool, false}
use mathlib.Core.List.{[], ◌∷◌, ◌++◌, reverse, reverse-append, reverse-reverse}
use mathlib.Core.Logic.{inl, inr}
use voya_vpn.Base.Tests.{Bool-cases}
use voya_vpn.Base.Texts.{Text, is_whitespace, trim_start, trim}

starts_blank : Text → Bool
starts_blank [] = false
starts_blank (c ∷ s) = is_whitespace c

trim_start-split : (s : Text) → (p : Text) × (p ++ trim_start s ≡ s)
unfolding trim_start
trim_start-split [] = ([], refl)
trim_start-split (c ∷ s) = elim (Bool-cases (is_whitespace c)) [
  | inl blank ↦ let (p, e) = trim_start-split s in (c ∷ p, rw blank (ap (◌∷◌ c) e))
  | inr other ↦ ([], rw other refl)
]

trim_start_head : (s : Text) → starts_blank (trim_start s) ≡ false
unfolding trim_start starts_blank
trim_start_head [] = refl
trim_start_head (c ∷ s) = elim (Bool-cases (is_whitespace c)) [
  | inl blank ↦ rw blank (trim_start_head s)
  | inr other ↦ rw other other
]

trim_start_same : (s : Text) → starts_blank s ≡ false → trim_start s ≡ s
unfolding trim_start starts_blank
trim_start_same [] h = refl
trim_start_same (c ∷ s) h = rw h refl

starts_blank_prefix : (s t : Text) → starts_blank (s ++ t) ≡ false → starts_blank s ≡ false
unfolding starts_blank
starts_blank_prefix [] t h = refl
starts_blank_prefix (c ∷ s) t h = h

pub trim_idem : (s : Text) → trim (trim s) ≡ trim s
unfolding trim
trim_idem s =
    let (p, e) = trim_start-split (reverse (trim_start s)) in
    let kept = trim_start (reverse (trim_start s)) in
    let front : trim_start s ≡ reverse kept ++ reverse p =
      sym (reverse-reverse (trim_start s)) ∙ (ap reverse (sym e) ∙ reverse-append p kept) in
    let clean : starts_blank (reverse kept) ≡ false =
      starts_blank_prefix (reverse kept) (reverse p)
        (subst (λ x. starts_blank x ≡ false) front (trim_start_head s)) in
    ap (λ x. reverse (trim_start (reverse x))) (trim_start_same (reverse kept) clean)
    ∙ (ap (λ x. reverse (trim_start x)) (reverse-reverse kept)
        ∙ ap reverse (trim_start_same kept (trim_start_head (reverse (trim_start s)))))
