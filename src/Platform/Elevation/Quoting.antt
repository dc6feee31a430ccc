-- ===== src/Platform/Elevation/Quoting.antt =====
-- Quoted arguments, read back by the splitter of command lines.
use mathlib.Core.List.{append_assoc, append-nil}
use voya_vpn.Base.{
  ℕ, ◌≤◌, ◌≡◌, refl, ap, ◌∙◌, ◌≢◌, inl, inr, Bool, true, false, List, [], ◌∷◌, ◌++◌, Option, none,
  some, arith, ◌==◌, Text, Bool-cases, Free, all, is_whitespace, ne→==, ==_iff,
}
use voya_vpn.Platform.Process.{
  Splitter, split_all, split_step, split_end, split_quoted, split_space, split_command_line,
  args_of,
}
use voya_vpn.Platform.Elevation.{is_plain, replace_quotes, quote_shell_arg}

-- The splitter outside an escape.
abbrev between : List Text → Text → Option ℕ → Bool → Splitter
between args current quote saw_token = record {
  args = args;
  current = current;
  quote = quote;
  escaped = false;
  saw_token = saw_token;
}

split_step-quoted :
    (c : ℕ) (args : List Text) (current : Text)
    → (c == 39) ≡ false
    → c ≢ 92
    → split_step (between args current (some 39) true) c
      ≡ between args (current ++ (c ∷ [])) (some 39) true
unfolding split_step split_quoted
split_step-quoted c args current e n = rw (ne→== c 92 n, e)

escaped_quote :
    (args : List Text) (current input : Text)
    → split_all (between args current (some 39) true) (39 ∷ 92 ∷ 39 ∷ 39 ∷ input)
      ≡ split_all (between args (current ++ (39 ∷ [])) (some 39) true) input
unfolding split_all split_step split_quoted
escaped_quote args current input = refl

space_between :
    (args : List Text) (current input : Text)
    → split_all (between args current none true) (32 ∷ input)
      ≡ split_all (between (args ++ (current ∷ [])) [] none false) input
unfolding split_all split_step split_quoted split_space is_whitespace
space_between args current input = refl

-- Behind an opening quote.
split_all-quoted :
    (v rest : Text) (args : List Text) (current : Text)
    → Free 92 v
    → split_all (between args current (some 39) true) (replace_quotes v ++ (39 ∷ rest))
      ≡ split_all (between args (current ++ v) none true) rest
unfolding split_all replace_quotes
split_all-quoted [] rest args current h =
    unfold split_step split_quoted in (rw (append-nil current))
split_all-quoted (c ∷ v) rest args current (n, h) = elim (Bool-cases (c == 39)) [
  | inl e ↦ rw e (
      escaped_quote args current (replace_quotes v ++ (39 ∷ rest))
      ∙ (split_all-quoted v rest args (current ++ (39 ∷ [])) h
          ∙ rw ((==_iff c 39).0 e, append_assoc current (39 ∷ []) v)))
  | inr e ↦ rw e (
      ap (λ s. split_all s (replace_quotes v ++ (39 ∷ rest))) (split_step-quoted c args current e n)
      ∙ (split_all-quoted v rest args (current ++ (c ∷ [])) h
          ∙ rw (append_assoc current (c ∷ []) v)))
]

plain_range : (c : ℕ) → is_plain c ≡ true → (45 ≤ c) × (c ≤ 122) × (c ≢ 92)
unfolding is_plain
plain_range c h = ground arith

range_plain : (c : ℕ) → 45 ≤ c → c ≤ 122 → is_whitespace c ≡ false
unfolding is_whitespace
range_plain c h k = ground arith

split_step-plain :
    (c : ℕ) (args : List Text) (current : Text) (saw_token : Bool)
    → is_plain c ≡ true
    → split_step (between args current none saw_token) c
      ≡ between args (current ++ (c ∷ [])) none true
unfolding split_step split_quoted
split_step-plain c args current saw_token h =
    let (low, high, plain) = plain_range c h in
    rw
      (ne→== c 92 plain, ne→== c 39 (omega arith), ne→== c 34 (omega arith), range_plain c low high)

split_all-plain :
    (c : ℕ) (v rest : Text) (args : List Text) (current : Text) (saw_token : Bool)
    → all is_plain (c ∷ v) ≡ true
    → split_all (between args current none saw_token) (c ∷ (v ++ rest))
      ≡ split_all (between args (current ++ (c ∷ v)) none true) rest
unfolding split_all
split_all-plain c [] rest args current saw_token h =
    ap (λ s. split_all s rest) (split_step-plain c args current saw_token (ground arith))
split_all-plain c (d ∷ v) rest args current saw_token h =
    ap (λ s. split_all s (d ∷ (v ++ rest)))
      (split_step-plain c args current saw_token (ground arith))
    ∙ (split_all-plain d v rest args (current ++ (c ∷ [])) true (ground arith)
        ∙ rw (append_assoc current (c ∷ []) (d ∷ v)))

-- An argument that is quoted is one token, whatever follows.
split_all-quote_shell_arg :
    (v rest : Text) (args : List Text)
    → Free 92 v
    → split_all (between args [] none false) (quote_shell_arg v ++ rest)
      ≡ split_all (between args v none true) rest
unfolding quote_shell_arg
split_all-quote_shell_arg [] rest args h = unfold split_all split_step split_quoted in refl
split_all-quote_shell_arg (c ∷ v) rest args h = elim (Bool-cases (all is_plain (c ∷ v))) [
  | inl e ↦ rw e (split_all-plain c v rest args [] false e)
  | inr e ↦
      rw (e, append_assoc (replace_quotes (c ∷ v)) (39 ∷ []) rest)
        (unfold split_all split_step split_quoted in (split_all-quoted (c ∷ v) rest args [] h))
]

-- The arguments, quoted, with a space between two of them.
abbrev pub command_line : List Text → Text
command_line [] = []
command_line (v ∷ []) = quote_shell_arg v
command_line (v ∷ w ∷ vs) = quote_shell_arg v ++ (32 ∷ command_line (w ∷ vs))

abbrev pub All {ℓ} : {A : Type ℓ} → (A → Type 0) → List A → Type 0
All P [] = Unit
All P (x ∷ xs) = P x × All P xs

split_all-command_line :
    (args vs : List Text)
    → All (Free 92) vs
    → split_end (split_all (between args [] none false) (command_line vs)) ≡ args_of (args ++ vs)
unfolding split_end
split_all-command_line args [] h = unfold split_all in (rw (append-nil args))
split_all-command_line args (v ∷ []) h =
    rw (← append-nil (quote_shell_arg v))
      (rw (split_all-quote_shell_arg v [] args h.0) (unfold split_all in refl))
split_all-command_line args (v ∷ w ∷ vs) h =
    rw (split_all-quote_shell_arg v (32 ∷ command_line (w ∷ vs)) args h.0) (
      ap split_end (space_between args v (command_line (w ∷ vs)))
      ∙ (split_all-command_line (args ++ (v ∷ [])) (w ∷ vs) h.1
          ∙ rw (append_assoc args (v ∷ []) (w ∷ vs))))

-- A command line of quoted arguments splits into these arguments, blank and empty ones included,
-- where no argument holds a backslash.
pub split_command_line-quote :
    (vs : List Text) → All (Free 92) vs → split_command_line (command_line vs) ≡ args_of vs
unfolding split_command_line
split_command_line-quote vs h = split_all-command_line [] vs h
