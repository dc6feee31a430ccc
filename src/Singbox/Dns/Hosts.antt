-- ===== src/Singbox/Dns/Hosts.antt =====
-- crates/voya-core/src/singbox/dns/address.rs: hosts files.
use voya_vpn.Base.{
  append_nil, append_assoc, ◌≡◌, refl, sym, ◌∙◌, ap, true, false, not, ◌||◌, List, [], ◌∷◌, ◌++◌,
  Option, none, some, if◌then◌else◌, any, Text, codes, text_eq, eq_of_text_eq, is_empty, trim,
  split_at, is_whitespace, Bool-cases, inl, inr, subst,
}
use voya_vpn.Context.Domains.{starts_with}
use voya_vpn.Context.Maps.{text_eq_sym}

-- The addresses of each name, for `BTreeMap<String, Vec<String>>`: the names stand in the order of
-- their first lines here, and in their own order there.
abbrev pub Dictionary : Type 0
Dictionary = List (Text × List Text)

-- `entry(…).or_insert_with(Vec::new).extend(…)`.
unfoldable pub extend_entry : Text → List Text → Dictionary → Dictionary
extend_entry name addresses [] = (name, addresses) ∷ []
extend_entry name addresses ((k, old) ∷ rest) =
    let later = extend_entry name addresses rest in
    if text_eq name k then (k, old ++ addresses) ∷ rest else (k, old) ∷ later

abbrev push_word : Text → List Text → List Text
push_word [] words = words
push_word (c ∷ word) words = (c ∷ word) ∷ words

-- The word that a text begins with, and those behind it.
abbrev words_from : Text → Text × List Text
words_from [] = ([], [])
words_from (c ∷ s) =
    let (word, words) = words_from s in
    if is_whitespace c then ([], push_word word words) else (c ∷ word, words)

unfoldable pub split_whitespace : Text → List Text
split_whitespace s = let (word, words) = words_from s in push_word word words

-- The name and the addresses of a line, if it has both. Lines end at line feeds; a carriage return
-- before it is trimmed off.
unfoldable pub line_entry : Text → Option (Text × List Text)
line_entry line =
    let trimmed = trim line in
    if is_empty trimmed || (starts_with (codes "#") trimmed || not (any is_whitespace trimmed))
    then none
    else elim (split_whitespace trimmed) [
      | [] ↦ none
      | name ∷ [] ↦ none
      | name ∷ first ∷ rest ↦ some (name, first ∷ rest)
    ]

abbrev add_line : Option (Text × List Text) → Dictionary → Dictionary
add_line none dictionary = dictionary
add_line (some (name, addresses)) dictionary = extend_entry name addresses dictionary

abbrev add_lines : List Text → Dictionary → Dictionary
add_lines [] dictionary = dictionary
add_lines (line ∷ lines) dictionary = add_lines lines (add_line (line_entry line) dictionary)

abbrev pub content_of : Option Text → Text
content_of none = []
content_of (some content) = content

unfoldable pub parse_hosts_to_dictionary : Option Text → Dictionary
parse_hosts_to_dictionary hosts_content = add_lines (split_at 10 [] (content_of hosts_content)) []

-- The addresses that a dictionary has for a name.
abbrev pub addresses_of : Text → Dictionary → List Text
addresses_of name [] = []
addresses_of name ((k, addresses) ∷ rest) =
    let later = addresses_of name rest in if text_eq name k then addresses else later

-- The addresses that the lines give a name, one after another.
abbrev given_by : Text → Option (Text × List Text) → List Text
given_by name none = []
given_by name (some (k, addresses)) = if text_eq name k then addresses else []

abbrev pub given : Text → List Text → List Text
given name [] = []
given name (line ∷ lines) = given_by name (line_entry line) ++ given name lines

addresses_of-extend :
    (name k : Text) (addresses : List Text) (dictionary : Dictionary)
    → addresses_of name (extend_entry k addresses dictionary)
      ≡ addresses_of name dictionary ++ given_by name (some (k, addresses))
unfolding extend_entry
addresses_of-extend name k addresses [] = elim (Bool-cases (text_eq name k)) [
  | inl same ↦ rw same refl
  | inr other ↦ rw other refl
]
addresses_of-extend name k addresses ((k', old) ∷ rest) = elim (Bool-cases (text_eq k k')) [
  | inl same ↦ rw same (elim (Bool-cases (text_eq name k')) [
    | inl here ↦
        let also = subst (λ x. text_eq name x ≡ true) (sym (eq_of_text_eq k k' same)) here in
        rw (here, also) refl
    | inr other ↦
        let also = subst (λ x. text_eq name x ≡ false) (sym (eq_of_text_eq k k' same)) other in
        rw (other, also) (sym (append_nil (addresses_of name rest)))
  ])
  | inr differ ↦ rw differ (elim (Bool-cases (text_eq name k')) [
    | inl here ↦
        let also : text_eq name k ≡ false =
          text_eq_sym name k
          ∙ subst (λ x. text_eq k x ≡ false) (sym (eq_of_text_eq name k' here)) differ in
        rw (here, also) (sym (append_nil old))
    | inr other ↦ rw other (addresses_of-extend name k addresses rest)
  ])
]

addresses_of-add_lines :
    (name : Text) (lines : List Text) (dictionary : Dictionary)
    → addresses_of name (add_lines lines dictionary)
      ≡ addresses_of name dictionary ++ given name lines
addresses_of-add_lines name [] dictionary = sym (append_nil (addresses_of name dictionary))
addresses_of-add_lines name (line ∷ lines) dictionary =
    addresses_of-add_lines name lines (add_line (line_entry line) dictionary)
    ∙ (ap (λ x. x ++ given name lines) (by_entry (line_entry line))
        ∙ append_assoc (addresses_of name dictionary) (given_by name (line_entry line))
            (given name lines))
  where
    by_entry :
        (o : Option (Text × List Text))
        → addresses_of name (add_line o dictionary)
          ≡ addresses_of name dictionary ++ given_by name o
    by_entry none = sym (append_nil (addresses_of name dictionary))
    by_entry (some (k, addresses)) = addresses_of-extend name k addresses dictionary

-- The dictionary has for every name the addresses that the lines of the content give it, line after
-- line, and no others.
pub parse_hosts_to_dictionary-given :
    (name : Text) (hosts_content : Option Text)
    → addresses_of name (parse_hosts_to_dictionary hosts_content)
      ≡ given name (split_at 10 [] (content_of hosts_content))
unfolding parse_hosts_to_dictionary
parse_hosts_to_dictionary-given name hosts_content =
    addresses_of-add_lines name (split_at 10 [] (content_of hosts_content)) []
