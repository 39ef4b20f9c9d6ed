-- ===== src/Capabilities/Resolver/Eligibility.antt =====
-- Which provider a resolution selects.
use artifex_dev.Prelude.{
  String, ◌≡◌, ◌⊎◌, inl, inr, refl, Bool, true, false, not, ◌&&◌, Option, none, some, List, [], ◌∷◌,
  Some, subst, sym, ap, ◌∙◌, arith, is_empty, is_subset, str_eq, Bool-cases, eq_iff,
}
use artifex_dev.Capabilities.Models.{
  DataClassification, GovernanceMode, ProviderRole, ProviderInstance, provider_id,
  globally_available, has_role, CapabilityRequest, CapabilityGraph,
}
use artifex_dev.Capabilities.Resolver.{
  Evaluation, add_if, outside, no_roles, is_atlas, is_restricted, ineligibility_reasons, candidates,
  is_preferred, precedes, insert_candidate, sort_candidates, decision, resolve,
}

add_if-empty :
    (b : Bool) (s : String) (rest : List String)
    → is_empty (add_if b s rest) ≡ true
    → (b ≡ false) × (is_empty rest ≡ true)
unfolding add_if is_empty
add_if-empty true s rest h = cc
add_if-empty false s rest h = (refl, h)

-- What the request and the provider must have.
pub record IsEligible (p : ProviderInstance) (r : CapabilityRequest) : Type 0 where
  pub available : globally_available p ≡ true
  pub configured : has_role r.role p.configuration.roles ≡ true
  pub certified : has_role r.role p.certified_roles ≡ true
  pub delegated : has_role r.role r.actor.delegated_roles ≡ true
  pub provided : is_subset r.capabilities p.capabilities ≡ true
  pub in_envelope : is_subset r.capabilities r.envelope_capabilities ≡ true
  pub allowed : outside (provider_id p) r.allowed_providers ≡ false
  pub allowed_in_project : outside (provider_id p) r.project_allowed_providers ≡ false
  pub role_allowed_in_project :
      (r.project_allowed_roles ≡ []) ⊎ (has_role r.role r.project_allowed_roles ≡ true)
  pub atlas_bounded : (is_atlas p.configuration.governance_mode ≡ false) ⊎ (provider_id p ≡ "atlas")
  pub governed :
      (is_restricted r.data_classification ≡ false)
      ⊎ ((is_atlas p.configuration.governance_mode ≡ true) × (provider_id p ≡ "atlas"))

no_roles-empty : (rs : List ProviderRole) → no_roles rs ≡ true → rs ≡ []
no_roles-empty [] h = refl
no_roles-empty (r ∷ rs) h = cc

by_role :
    (role : ProviderRole) (rs : List ProviderRole)
    → (not (no_roles rs) && not (has_role role rs)) ≡ false
    → (rs ≡ []) ⊎ (has_role role rs ≡ true)
by_role role rs h = elim (Bool-cases (no_roles rs)) [
  | inl free ↦ inl (no_roles-empty rs free)
  | inr listed ↦ inr (ground arith)
]

by_provider :
    (g : GovernanceMode) (id : String)
    → (is_atlas g && not (str_eq id "atlas")) ≡ false
    → (is_atlas g ≡ false) ⊎ (id ≡ "atlas")
by_provider g id h = elim (Bool-cases (is_atlas g)) [
  | inr other ↦ inl other
  | inl own ↦ inr (ground (arith, eq_iff id "atlas"))
]

by_mode :
    (d : DataClassification) (g : GovernanceMode) (id : String)
    → (is_atlas g && not (str_eq id "atlas")) ≡ false
    → (is_restricted d && not (is_atlas g)) ≡ false
    → (is_restricted d ≡ false) ⊎ ((is_atlas g ≡ true) × (id ≡ "atlas"))
by_mode d g id h k = elim (Bool-cases (is_restricted d)) [
  | inr other ↦ inl other
  | inl secret ↦ inr (ground arith, ground (arith, eq_iff id "atlas"))
]

reasons-IsEligible :
    (p : ProviderInstance) (r : CapabilityRequest)
    → is_empty (ineligibility_reasons p r) ≡ true
    → IsEligible p r
unfolding ineligibility_reasons
reasons-IsEligible p r h =
    let (a1, h1) = add_if-empty _ _ _ h in
    let (a2, h2) = add_if-empty _ _ _ h1 in
    let (a3, h3) = add_if-empty _ _ _ h2 in
    let (a4, h4) = add_if-empty _ _ _ h3 in
    let (a5, h5) = add_if-empty _ _ _ h4 in
    let (a6, h6) = add_if-empty _ _ _ h5 in
    let (a7, h7) = add_if-empty _ _ _ h6 in
    let (a8, h8) = add_if-empty _ _ _ h7 in
    let (a9, h9) = add_if-empty _ _ _ h8 in
    let (a10, h10) = add_if-empty _ _ _ h9 in
    let (a11, h11) = add_if-empty _ _ _ h10 in
    record {
      available = ground arith;
      configured = ground arith;
      certified = ground arith;
      delegated = ground arith;
      provided = ground arith;
      in_envelope = ground arith;
      allowed = a7;
      allowed_in_project = a8;
      role_allowed_in_project = by_role r.role r.project_allowed_roles a9;
      atlas_bounded = by_provider p.configuration.governance_mode (provider_id p) a10;
      governed =
          by_mode r.data_classification p.configuration.governance_mode (provider_id p) a10 a11;
    }

abbrev first : List ProviderInstance → Option ProviderInstance
first [] = none
first (p ∷ ps) = some p

decision-first :
    (l : List ProviderInstance) (evaluated : List Evaluation)
    → (decision l evaluated).eligible ≡ true
    → (s : ProviderInstance) × (first l ≡ some s)
      × ((decision l evaluated).provider_id ≡ some (provider_id s))
      × ((decision l evaluated).instance_id ≡ some s.instance_id)
decision-first [] evaluated h = cc
decision-first (s ∷ l) evaluated h = (s, refl, refl, refl)

module _ (preferred : Option String) where
  first-insert :
      (p s : ProviderInstance) (l : List ProviderInstance)
      → first (insert_candidate preferred p l) ≡ some s
      → (p ≡ s) ⊎ (first l ≡ some s)
  unfolding insert_candidate
  first-insert p s [] h = ground arith
  first-insert p s (q ∷ l) h = ground arith

  first-sort :
      (s : ProviderInstance) (ps : List ProviderInstance)
      → first (sort_candidates preferred ps) ≡ some s
      → Some (λ p. p ≡ s) ps
  unfolding sort_candidates
  first-sort s [] h = cc
  first-sort s (p ∷ ps) h = elim (first-insert p s (sort_candidates preferred ps) h) [
    | inl here ↦ inl here
    | inr later ↦ inr (first-sort s ps later)
  ]

  -- The first is a preferred provider.
  abbrev Prefers : List ProviderInstance → Type 0
  Prefers l = (s : ProviderInstance) × (first l ≡ some s) × (is_preferred s preferred ≡ true)

  insert-Prefers :
      (p : ProviderInstance) (l : List ProviderInstance)
      → (is_preferred p preferred ≡ true) ⊎ Prefers l
      → Prefers (insert_candidate preferred p l)
  unfolding insert_candidate precedes
  insert-Prefers p [] (inl own) = (p, refl, own)
  insert-Prefers p [] (inr (s, e, h)) = cc
  insert-Prefers p (q ∷ l) (inl own) = elim (Bool-cases (precedes preferred q p)) [
    | inl before ↦ (q, rw before refl, ground arith)
    | inr after ↦ (p, rw after refl, own)
  ]
  insert-Prefers p (q ∷ l) (inr (s, e, h)) = elim (Bool-cases (precedes preferred q p)) [
    | inl before ↦ (q, rw before refl, ground arith)
    | inr after ↦ (p, rw after refl, ground arith)
  ]

  sort-Prefers :
      (ps : List ProviderInstance)
      → Some (λ p. is_preferred p preferred ≡ true) ps
      → Prefers (sort_candidates preferred ps)
  unfolding sort_candidates
  sort-Prefers [] h = absurd h
  sort-Prefers (p ∷ ps) (inl own) = insert-Prefers p (sort_candidates preferred ps) (inl own)
  sort-Prefers (p ∷ ps) (inr later) =
      insert-Prefers p (sort_candidates preferred ps) (inr (sort-Prefers ps later))

module _ (r : CapabilityRequest) where
  candidates-kept :
      (p : ProviderInstance) (ps : List ProviderInstance)
      → is_empty (ineligibility_reasons p r) ≡ true
      → candidates (p ∷ ps) r ≡ p ∷ candidates ps r
  unfolding candidates
  candidates-kept p ps h = rw h refl

  candidates-dropped :
      (p : ProviderInstance) (ps : List ProviderInstance)
      → is_empty (ineligibility_reasons p r) ≡ false
      → candidates (p ∷ ps) r ≡ candidates ps r
  unfolding candidates
  candidates-dropped p ps h = rw h refl

  candidates-Some :
      (P : ProviderInstance → Type 0) (ps : List ProviderInstance)
      → Some P (candidates ps r)
      → Some (λ p. P p × IsEligible p r) ps
  candidates-Some P [] h = unfold candidates in absurd h
  candidates-Some P (p ∷ ps) h = elim (Bool-cases (is_empty (ineligibility_reasons p r))) [
    | inl good ↦ elim (subst (Some P) (candidates-kept p ps good) h) [
      | inl here ↦ inl (here, reasons-IsEligible p r good)
      | inr later ↦ inr (candidates-Some P ps later)
    ]
    | inr bad ↦ inr (candidates-Some P ps (subst (Some P) (candidates-dropped p ps bad) h))
  ]

  Some-candidates :
      (P : ProviderInstance → Type 0) (ps : List ProviderInstance)
      → Some (λ p. P p × (is_empty (ineligibility_reasons p r) ≡ true)) ps
      → Some P (candidates ps r)
  Some-candidates P [] h = absurd h
  Some-candidates P (p ∷ ps) (inl (here, good)) =
      subst (Some P) (sym (candidates-kept p ps good)) (inl here)
  Some-candidates P (p ∷ ps) (inr later) =
      elim (Bool-cases (is_empty (ineligibility_reasons p r))) [
        | inl good ↦
            subst (Some P) (sym (candidates-kept p ps good)) (inr (Some-candidates P ps later))
        | inr bad ↦ subst (Some P) (sym (candidates-dropped p ps bad)) (Some-candidates P ps later)
      ]

Some-map :
    {A : Type 0} (P Q : A → Type 0) (xs : List A) → ((x : A) → P x → Q x) → Some P xs → Some Q xs
Some-map P Q [] f h = absurd h
Some-map P Q (x ∷ xs) f (inl h) = inl (f x h)
Some-map P Q (x ∷ xs) f (inr h) = inr (Some-map P Q xs f h)

-- When a resolution selects a provider, the graph has a provider of this identity that is eligible:
-- it is available, has the role configured and certified, the actor has the role delegated, the
-- capabilities are among the provider's and the envelope's, the envelope and the project allow the
-- provider, the project has no list of roles or has the role in it, an Atlas-governed provider is
-- Atlas, and restricted data goes to Atlas alone.
pub resolve_selects :
    (g : CapabilityGraph) (r : CapabilityRequest)
    → (resolve g r).eligible ≡ true
    → Some
        (λ p.
          IsEligible p r
          × ((resolve g r).provider_id ≡ some (provider_id p))
          × ((resolve g r).instance_id ≡ some p.instance_id))
        g.providers
unfolding resolve
resolve_selects g r h =
    let (s, is_first, its_provider, its_instance) =
      decision-first (sort_candidates r.preferred_provider (candidates g.providers r)) _ h in
    Some-map _ _ g.providers
      (λ p (same, fits). (
        fits,
        its_provider ∙ ap (λ (t : ProviderInstance). some (provider_id t)) (sym same),
        its_instance ∙ ap (λ (t : ProviderInstance). some t.instance_id) (sym same),
      ))
      (candidates-Some r (λ p. p ≡ s) g.providers
        (first-sort r.preferred_provider s (candidates g.providers r) is_first))

first-decision :
    (s : ProviderInstance) (l : List ProviderInstance) (evaluated : List Evaluation)
    → first l ≡ some s
    → ((decision l evaluated).eligible ≡ true)
      × ((decision l evaluated).provider_id ≡ some (provider_id s))
first-decision s [] evaluated h = cc
first-decision s (p ∷ l) evaluated h = (refl, ground arith)

preferred-provider_id :
    (s : ProviderInstance) (preferred : Option String)
    → is_preferred s preferred ≡ true
    → some (provider_id s) ≡ preferred
preferred-provider_id s none h = cc
preferred-provider_id s (some id) h = ap (λ (t : String). some t) ((eq_iff (provider_id s) id).0 h)

-- When the graph has a provider of the preferred identity for which there is no reason against it,
-- the resolution selects the preferred provider, wherever in the graph it stands and whatever the
-- other providers are.
pub resolve_prefers :
    (g : CapabilityGraph) (r : CapabilityRequest)
    → Some
        (λ p.
          (is_preferred p r.preferred_provider ≡ true)
          × (is_empty (ineligibility_reasons p r) ≡ true))
        g.providers
    → ((resolve g r).eligible ≡ true) × ((resolve g r).provider_id ≡ r.preferred_provider)
unfolding resolve
resolve_prefers g r h =
    let (s, is_first, own) =
      sort-Prefers r.preferred_provider (candidates g.providers r)
        (Some-candidates r (λ p. is_preferred p r.preferred_provider ≡ true) g.providers h) in
    let (selected, its_provider) =
      first-decision s (sort_candidates r.preferred_provider (candidates g.providers r)) _
        is_first in
    (selected, its_provider ∙ preferred-provider_id s r.preferred_provider own)
