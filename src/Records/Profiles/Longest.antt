-- ===== src/Records/Profiles/Longest.antt =====
-- The storage profile of a table is the one with the longest matching prefix
-- (crates/lakecat-store/src/helpers.rs).
use lakecat.Prelude.{
  ltb, ◌==◌, ◌<◌, ◌≡◌, ◌⊎◌, refl, ap, sym, true, false, Option, none, some, List, [], ◌∷◌, All,
  keep, inl, inr, Bool-cases, arith,
}
use lakecat.Prelude.Results.{err-ne-ok, ok, err, ok-injective}
use lakecat.Records.Types.{TableRecord}
use lakecat.Records.External.{External}
use lakecat.Records.Profiles.{StorageProfile}
use lakecat.Records.Profiles.Match.{
  prefix_len, is_candidate, ambiguous, best_of, storage_profile_match,
}

-- What is in a list.
pub data IsIn (p : StorageProfile) : List StorageProfile → Type 0 where
  here : {ps : List StorageProfile} → IsIn p (p ∷ ps)
  there : {q : StorageProfile} {ps : List StorageProfile} → IsIn p ps → IsIn p (q ∷ ps)

-- A chosen profile of the list whose prefix is longer than that of any other.
pub record Chosen (best : Option StorageProfile) (ps : List StorageProfile) : Type 0 where
  pub profile : StorageProfile
  pub is_best : best ≡ some profile
  pub is_in : IsIn profile ps
  pub longest : All (λ q. (q ≡ profile) ⊎ (prefix_len q < prefix_len profile)) ps

-- An item that is in front of the next one, or behind it, when one of the two is shorter.
module _ (current q : StorageProfile) (ps : List StorageProfile)
    (best : Option StorageProfile) where
  below :
      (p : StorageProfile)
      → prefix_len current < prefix_len q
      → (q ≡ p) ⊎ (prefix_len q < prefix_len p)
      → prefix_len current < prefix_len p
  below p h (inl e) = let same : prefix_len q ≡ prefix_len p = ap prefix_len e in omega arith
  below p h (inr less) = omega arith

  Chosen-longer :
      prefix_len current < prefix_len q → Chosen best (q ∷ ps) → Chosen best (current ∷ q ∷ ps)
  Chosen-longer h c = record {
    profile = c.profile;
    is_best = c.is_best;
    is_in = there c.is_in;
    longest = (inr (below c.profile h c.longest.0), c.longest);
  }

  past : {p : StorageProfile} → IsIn p (current ∷ ps) → IsIn p (current ∷ q ∷ ps)
  past here = here
  past (there m) = there (there m)

module _ (current q : StorageProfile) (ps : List StorageProfile)
    (best : Option StorageProfile) where
  Chosen-shorter :
      prefix_len q < prefix_len current
      → Chosen best (current ∷ ps)
      → Chosen best (current ∷ q ∷ ps)
  Chosen-shorter h c = record {
    profile = c.profile;
    is_best = c.is_best;
    is_in = past current q ps best c.is_in;
    longest = (c.longest.0, (inr (below q current ps best c.profile h c.longest.0), c.longest.1));
  }

module _ ⦃ext : External⦄ (table : TableRecord) where
  best_of-some :
      (current : StorageProfile) (profiles : List StorageProfile) (best : Option StorageProfile)
      → best_of table (some current) profiles ≡ ok best
      → Chosen best (current ∷ profiles)
  unfolding best_of
  best_of-some current [] best h = record {
    profile = current;
    is_best = sym (ok-injective h);
    is_in = here;
    longest = (inl refl, tt);
  }
  best_of-some current (q ∷ profiles) best h =
      elim (Bool-cases (ltb (prefix_len current) (prefix_len q))) [
        | inl longer ↦
            Chosen-longer current q profiles best (ground arith)
              (best_of-some q profiles best (rw (longer, best_of) at h))
        | inr not_longer ↦ elim (Bool-cases (prefix_len q == prefix_len current)) [
          | inl equal ↦ absurd (err-ne-ok (rw (not_longer, best_of, equal) at h))
          | inr unequal ↦
              Chosen-shorter current q profiles best (ground arith)
                (best_of-some current profiles best (rw (not_longer, best_of, unequal) at h))
        ]
      ]

  -- When the choice succeeds, it gives a candidate among the profiles whose prefix is longer than that
  -- of every other candidate, and none only if there is no candidate.
  pub storage_profile_match-longest :
      (profiles : List StorageProfile) (best : Option StorageProfile)
      → storage_profile_match profiles table ≡ ok best
      → Chosen best (keep (is_candidate table) profiles)
        ⊎ ((best ≡ none) × (keep (is_candidate table) profiles ≡ []))
  unfolding storage_profile_match
  storage_profile_match-longest profiles best h =
      from_candidates (keep (is_candidate table) profiles) h
    where
      from_candidates :
          (ps : List StorageProfile)
          → best_of table none ps ≡ ok best
          → Chosen best ps ⊎ ((best ≡ none) × (ps ≡ []))
      from_candidates [] h = inr (sym (ok-injective (unfold best_of in h)), refl)
      from_candidates (p ∷ ps) h = inl (best_of-some p ps best (unfold best_of in h))

  -- Two candidates with prefixes of one length make the choice fail when they come first, whatever
  -- comes later, even a third candidate with a longer prefix; behind that one, they do not.
  pub storage_profile_match-order :
      (a b c : StorageProfile) (rest : List StorageProfile)
      → All (λ p. is_candidate table p ≡ true) (a ∷ b ∷ c ∷ [])
      → prefix_len a ≡ prefix_len b
      → prefix_len b < prefix_len c
      → (storage_profile_match (a ∷ b ∷ c ∷ rest) table ≡ err (ambiguous table a b))
        × (storage_profile_match (c ∷ a ∷ b ∷ []) table ≡ ok (some c))
  unfolding storage_profile_match best_of keep
  storage_profile_match-order a b c rest h same longer = (
    rw (h.0, h.1.0, h.1.1.0) (tie (ground arith) (ground arith)),
    rw (h.0, h.1.0, h.1.1.0) (passed (ground arith) (ground arith) (ground arith) (ground arith)),
  )
    where
      tie :
          ltb (prefix_len a) (prefix_len b) ≡ false
          → prefix_len b == prefix_len a ≡ true
          → best_of table none (a ∷ b ∷ c ∷ keep (is_candidate table) rest)
            ≡ err (ambiguous table a b)
      tie p q = rw (p, best_of, q) refl

      passed :
          ltb (prefix_len c) (prefix_len a) ≡ false
          → prefix_len a == prefix_len c ≡ false
          → ltb (prefix_len c) (prefix_len b) ≡ false
          → prefix_len b == prefix_len c ≡ false
          → best_of table none (c ∷ a ∷ b ∷ []) ≡ ok (some c)
      passed p q r t = rw (p, best_of, q, r, t) refl
