-- ===== src/Di/Container/Checks.antt =====
-- The checks that BuildAll makes before it builds.
use gas.Prelude.{
  nat_eq, ◌≡◌, ◌≢◌, refl, true, false, ◌||◌, none, some, List, [], ◌∷◌, if◌then◌else◌, arith, All,
  ◌↔◌, Bool-cases, Option-cases, inl, inr,
}
use gas.OrderedMap.{get, has, all}
use gas.Di.{
  TypeId, ServiceLifetime, singleton, scoped, transient, other, Registration, alias_target,
  captive_dependency,
}
use gas.Di.Container.{
  Container, validate_aliases, captive_in, captive_among, validate_lifetimes, is_captive,
}
use gas.Di.TopoSort.{zero_registration}

-- A dependency that a constructor may have: one whose target has an instance, or is not registered
-- as scoped or transient.
abbrev pub Holdable : Container → TypeId → Type 0
Holdable c dep =
    has c.instances (alias_target c.aliases dep) ≡ false
    → (reg : Registration) → get c.registrations (alias_target c.aliases dep) ≡ some reg
    → (reg.lifetime ≢ scoped) × (reg.lifetime ≢ transient)

-- Every dependency of every singleton may be held.
abbrev pub NoCaptives : Container → List (TypeId × Registration) → Type 0
NoCaptives c regs = All (λ (t, reg). reg.lifetime ≡ singleton → All (Holdable c) reg.ctor.ins) regs

module _ (c : Container) where
  captive_in-none :
      (t : TypeId) (lifetime : ServiceLifetime) (deps : List TypeId)
      → captive_in c t lifetime deps ≡ none
      → lifetime ≡ singleton
      → All (Holdable c) deps
  unfolding captive_in
  captive_in-none t lifetime [] h s = tt
  captive_in-none t lifetime (dep ∷ deps) h s = (
    (λ absent reg found. ((λ e. ground arith), (λ e. ground arith))),
    captive_in-none t lifetime deps (ground arith) s,
  )

  none-captive_in :
      (t : TypeId) (lifetime : ServiceLifetime) (deps : List TypeId)
      → (lifetime ≡ singleton → All (Holdable c) deps)
      → captive_in c t lifetime deps ≡ none
  unfolding captive_in
  none-captive_in t lifetime [] h = refl
  none-captive_in t scoped (dep ∷ deps) h = ground (arith, none-captive_in t scoped deps (λ s. cc))
  none-captive_in t transient (dep ∷ deps) h =
      ground (arith, none-captive_in t transient deps (λ s. cc))
  none-captive_in t (other n) (dep ∷ deps) h =
      ground (arith, none-captive_in t (other n) deps (λ s. cc))
  none-captive_in t singleton (dep ∷ deps) h =
      elim (Bool-cases (has c.instances (alias_target c.aliases dep))) [
        | inl built ↦ rw built (none-captive_in t singleton deps (λ s. (h s).1))
        | inr absent ↦ elim (Option-cases (get c.registrations (alias_target c.aliases dep))) [
          | inl missing ↦ rw (absent, missing) (none-captive_in t singleton deps (λ s. (h s).1))
          | inr (reg, found) ↦
              rw (absent, found)
                (lifetime_cases reg ((h refl).0 absent reg found)
                  (none-captive_in t singleton deps (λ s. (h s).1)))
        ]
      ]
    where
      lifetime_cases :
          (reg : Registration)
          → (reg.lifetime ≢ scoped) × (reg.lifetime ≢ transient)
          → captive_in c t singleton deps ≡ none
          → (if is_captive singleton (some reg)
              then some (captive_dependency t (alias_target c.aliases dep))
              else captive_in c t singleton deps)
            ≡ none
      lifetime_cases reg ok rest = ground arith

  captive_among_iff :
      (regs : List (TypeId × Registration)) → (captive_among c regs ≡ none) ↔ NoCaptives c regs
  unfolding captive_among
  captive_among_iff [] = ((λ h. tt), (λ h. refl))
  captive_among_iff ((t, reg) ∷ regs) = (
    (λ h. (
      captive_in-none t reg.lifetime reg.ctor.ins (ground arith),
      (captive_among_iff regs).0 (ground arith),
    )),
    (λ h. rw (none-captive_in t reg.lifetime reg.ctor.ins h.0) ((captive_among_iff regs).1 h.1)),
  )

  -- validateLifetimes passes exactly if no singleton's constructor has a parameter that leads,
  -- through an alias or directly, to a scoped or transient registration without an instance.
  pub validate_lifetimes_iff :
      (validate_lifetimes c ≡ none) ↔ NoCaptives c (all zero_registration c.registrations)
  unfolding validate_lifetimes
  validate_lifetimes_iff = captive_among_iff (all zero_registration c.registrations)

  -- validateAliases passes exactly if each alias's target has a registration or an instance.
  pub validate_aliases_iff :
      (aliases : List (TypeId × TypeId))
      → (validate_aliases c aliases ≡ none)
        ↔ All (λ (a, t). (has c.registrations t || has c.instances t) ≡ true) aliases
  unfolding validate_aliases
  validate_aliases_iff [] = ((λ h. tt), (λ h. refl))
  validate_aliases_iff ((a, t) ∷ aliases) = (
    (λ h. (ground arith, (validate_aliases_iff aliases).0 (ground arith))),
    (λ h. ground (arith, (validate_aliases_iff aliases).1 h.1, h.0)),
  )
