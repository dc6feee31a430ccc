-- ===== src/Context/Domains/Laws.antt =====
-- Lists of protected domains: what is in them, and that they stay in order.
use voya_vpn.Base.{
  ◌≡◌, refl, ap, sym, Bool, true, ◌&&◌, ◌||◌, List, [], ◌∷◌, Text, text_eq, eq_of_text_eq, trim,
  trim_idem, Each, Each-append, arith, Bool-cases, inl, inr, subst, any,
}
use voya_vpn.Groups.Profile.{contains, IsFresh, contains-append}
use voya_vpn.Groups.Children.Distinct.{IsFresh-append}
use voya_vpn.Context.Domains.{is_domain, push_domain_if_needed, merge_protect_domains}

-- An entry of a list: a domain, without blanks around it.
pub record IsEntry (is_ip : Text → Bool) (d : Text) : Type 0 where
  pub domain : is_domain is_ip d ≡ true
  pub trimmed : trim d ≡ d

-- The entries are domains, and no one stands twice.
pub record AreDomains (is_ip : Text → Bool) (domains : List Text) : Type 0 where
  pub entries : Each (IsEntry is_ip) domains
  pub distinct : IsFresh [] domains

module _ (is_ip : Text → Bool) where
  pub empty-AreDomains : AreDomains is_ip []
  empty-AreDomains = record { entries = tt; distinct = tt }

  pub push-AreDomains :
      (candidate : Text) (domains : List Text)
      → AreDomains is_ip domains
      → AreDomains is_ip (push_domain_if_needed is_ip candidate domains)
  unfolding push_domain_if_needed
  push-AreDomains candidate domains v = elim (Bool-cases (is_domain is_ip (trim candidate))) [
    | inl good ↦ rw good (elim (Bool-cases (contains (trim candidate) domains)) [
      | inl known ↦ rw known v
      | inr new ↦ rw new (record {
        entries =
            Each-append (IsEntry is_ip) domains (trim candidate ∷ []) v.entries
              (record { domain = good; trimmed = trim_idem candidate }, tt);
        distinct =
            IsFresh-append [] domains (trim candidate) v.distinct (unfold contains in refl) new;
      })
    ])
    | inr bad ↦ rw bad v
  ]

  pub merge-AreDomains :
      (target source : List Text)
      → AreDomains is_ip target
      → AreDomains is_ip (merge_protect_domains is_ip target source)
  unfolding merge_protect_domains
  merge-AreDomains target [] v = v
  merge-AreDomains target (domain ∷ source) v =
      merge-AreDomains (push_domain_if_needed is_ip domain target) source
        (push-AreDomains domain target v)

  -- What is in a list after a push.
  contains-push :
      (d candidate : Text) (domains : List Text)
      → contains d (push_domain_if_needed is_ip candidate domains)
        ≡ (contains d domains || (text_eq d (trim candidate) && is_domain is_ip (trim candidate)))
  unfolding push_domain_if_needed
  contains-push d candidate domains = elim (Bool-cases (is_domain is_ip (trim candidate))) [
    | inl good ↦ rw good (elim (Bool-cases (contains (trim candidate) domains)) [
      | inl known ↦ rw known (elim (Bool-cases (text_eq d (trim candidate))) [
        | inl same ↦
            let here =
              subst (λ x. contains x domains ≡ true) (sym (eq_of_text_eq d (trim candidate) same))
                known in
            rw (same, here) refl
        | inr other ↦ rw other (ground arith)
      ])
      | inr new ↦ rw (new, contains-append d (trim candidate) domains) (ground arith)
    ])
    | inr bad ↦ rw bad (ground arith)
  ]

  -- After a merge, a list has what it had, and what the source has of domains, trimmed.
  pub contains-merge :
      (d : Text) (target source : List Text)
      → contains d (merge_protect_domains is_ip target source)
        ≡ (contains d target || any (λ c. text_eq d (trim c) && is_domain is_ip (trim c)) source)
  unfolding merge_protect_domains
  contains-merge d target [] = ground arith
  contains-merge d target (c ∷ source) =
      let h = contains-merge d (push_domain_if_needed is_ip c target) source in
      let g = contains-push d c target in ground (arith, h, g)

  -- Of a list of domains, everything is taken over.
  pub contains-merge_domains :
      (d : Text) (target source : List Text)
      → AreDomains is_ip source
      → contains d (merge_protect_domains is_ip target source)
        ≡ (contains d target || contains d source)
  unfolding contains
  contains-merge_domains d target source v =
      rw (contains-merge d target source)
        (ap (λ b. contains d target || b) (all_taken source v.entries))
    where
      all_taken :
          (ds : List Text)
          → Each (IsEntry is_ip) ds
          → any (λ c. text_eq d (trim c) && is_domain is_ip (trim c)) ds ≡ contains d ds
      all_taken [] each = refl
      all_taken (x ∷ ds) (entry, each) =
          let h = all_taken ds each in rw (entry.trimmed, entry.domain) (ground (arith, h))
