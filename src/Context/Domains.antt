-- ===== src/Context/Domains.antt =====
-- crates/voya-core/src/context/validation.rs: the domains that a tunnel leaves outside.
pub mod Laws
use voya_vpn.Base.{
  ℕ, Bool, true, false, not, ◌&&◌, ◌||◌, List, [], ◌∷◌, ◌++◌, Option, none, some, ◌==◌, leb,
  if◌then◌else◌, any, all, Text, codes, text_eq, is_empty, is_free, trim, rsplit_once, split_at,
  to_ascii_lowercase,
}
use voya_vpn.Groups.Profile.{contains}

abbrev pub has : ℕ → Text → Bool
has c s = not (is_free c s)

abbrev pub starts_with : Text → Text → Bool
starts_with [] s = true
starts_with (a ∷ p) [] = false
starts_with (a ∷ p) (b ∷ s) = a == b && starts_with p s

-- `contains` of a text in another.
abbrev pub has_text : Text → Text → Bool
has_text p [] = starts_with p []
has_text p (c ∷ s) = starts_with p (c ∷ s) || has_text p s

abbrev pub is_ascii_alphabetic : ℕ → Bool
is_ascii_alphabetic c = (leb 65 c && leb c 90) || (leb 97 c && leb c 122)

abbrev pub is_ascii_alphanumeric : ℕ → Bool
is_ascii_alphanumeric c = is_ascii_alphabetic c || (leb 48 c && leb c 57)

abbrev pub blocked_ext : List Text
blocked_ext =
    codes "json"
    ∷ codes "txt"
    ∷ codes "xml"
    ∷ codes "cfg"
    ∷ codes "ini"
    ∷ codes "log"
    ∷ codes "yaml"
    ∷ codes "yml"
    ∷ codes "toml"
    ∷ []

unfoldable pub has_blocked_ext : Text → Bool
unfolding rsplit_once to_ascii_lowercase contains
has_blocked_ext candidate = elim (rsplit_once b'.' candidate) [
  | none ↦ false
  | some (stem, extension) ↦ contains (to_ascii_lowercase extension) blocked_ext
]

abbrev pub is_label : Text → Bool
is_label label = not (is_empty label) && all (λ c. is_ascii_alphanumeric c || c == b'-') label

unfoldable pub is_trimmed_domain : (Text → Bool) → Text → Bool
unfolding has_blocked_ext split_at
is_trimmed_domain is_ip candidate =
    if is_empty candidate
      || (has_text (codes "://") candidate
          || (has b'/' candidate || (has b'\\' candidate || is_ip candidate)))
    then false
    else if has_blocked_ext candidate
    then false
    else all is_label (split_at b'.' [] candidate) && any is_ascii_alphabetic candidate

unfoldable pub is_domain : (Text → Bool) → Text → Bool
unfolding is_trimmed_domain trim
is_domain is_ip candidate = is_trimmed_domain is_ip (trim candidate)

unfoldable pub push_domain_if_needed : (Text → Bool) → Text → List Text → List Text
unfolding is_domain trim contains
push_domain_if_needed is_ip candidate protect_domain_list =
    let trimmed = trim candidate in
    if is_domain is_ip trimmed && not (contains trimmed protect_domain_list)
    then protect_domain_list ++ (trimmed ∷ [])
    else protect_domain_list

-- The domains of the source, after those of the target.
unfoldable pub merge_protect_domains : (Text → Bool) → List Text → List Text → List Text
unfolding push_domain_if_needed
merge_protect_domains is_ip target [] = target
merge_protect_domains is_ip target (domain ∷ source) =
    merge_protect_domains is_ip (push_domain_if_needed is_ip domain target) source
