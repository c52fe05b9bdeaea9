-- ===== src/Di/Container/Aliases.antt =====
-- What registration keeps of the aliases: an alias is an interface that its target implements, it
-- has no service of its own, and no alias leads to another.
use gas.Prelude.{
  nat_eq, ◌==◌, ◌≡◌, true, false, some, List, [], ◌∷◌, arith, nat_beq_iff, subst, Option-cases, inl,
  inr,
}
use gas.Maps
use gas.OrderedMap.{get, has, set, all}
use gas.OrderedMap.Refinement.{IsValid, empty-IsValid, set-IsValid, get-all}
use gas.OrderedMap.Reads.{get-set, has-set, has-get}
use gas.Di.{TypeId, ServiceLifetime, Ctor, Registration, alias_target}
use gas.Di.Container.{
  Value, Reflect, Container, new_service_container, done, register_service,
  register_service_instance, is_a_target, register_service_alias,
}

pub record AliasesAreFlat (r : Reflect) (c : Container) : Type 0 where
  pub valid : IsValid c.aliases
  pub flat : (a t : TypeId) → get c.aliases a ≡ some t → has c.aliases t ≡ false
  pub apart :
      (a : TypeId)
      → has c.aliases a ≡ true
      → (has c.registrations a ≡ false) × (has c.instances a ≡ false)
  pub fits :
      (a t : TypeId)
      → get c.aliases a ≡ some t
      → (r.is_interface a ≡ true) × (r.implements t a ≡ true)

not_a_target :
    (a k t : TypeId) (entries : List (TypeId × TypeId))
    → is_a_target a entries ≡ false
    → Maps.lookup k entries ≡ some t
    → (t == a) ≡ false
unfolding is_a_target
not_a_target a k t [] h e = cc
not_a_target a k t ((j, u) ∷ rest) h e = ground (arith, not_a_target a k t rest)

module _ (r : Reflect) (c c' : Container) (inv : AliasesAreFlat r c) where
  -- RegisterService keeps the aliases flat and apart from the services.
  pub register_service-AliasesAreFlat :
      (t : TypeId) (ct : Ctor) (lifetime : ServiceLifetime)
      → register_service r c t ct lifetime ≡ done c'
      → AliasesAreFlat r c'
  unfolding register_service
  register_service-AliasesAreFlat t ct lifetime h =
      let reg : Registration = record { ctor = ct; lifetime = lifetime } in
      let free : has c.aliases t ≡ false = ground arith in
      let e : record c { registrations = set c.registrations t reg } ≡ c' = ground arith in
      subst (AliasesAreFlat r) e (record {
        valid = inv.valid;
        flat = inv.flat;
        apart = λ a h. (
          ground (arith, has-set c.registrations t a reg, inv.apart a h, nat_beq_iff t a),
          (inv.apart a h).1,
        );
        fits = inv.fits;
      })

  -- RegisterServiceInstance keeps the aliases flat and apart from the services.
  pub register_service_instance-AliasesAreFlat :
      (t : TypeId) (v : Value) → register_service_instance c t v ≡ done c' → AliasesAreFlat r c'
  unfolding register_service_instance
  register_service_instance-AliasesAreFlat t v h =
      let free : has c.aliases t ≡ false = ground arith in
      let e : record c { instances = set c.instances t v } ≡ c' = ground arith in
      subst (AliasesAreFlat r) e (record {
        valid = inv.valid;
        flat = inv.flat;
        apart = λ a h. (
          (inv.apart a h).0,
          ground (arith, has-set c.instances t a v, inv.apart a h, nat_beq_iff t a),
        );
        fits = inv.fits;
      })

  -- RegisterServiceAlias keeps the aliases flat and apart from the services.
  pub register_service_alias-AliasesAreFlat :
      (t a : TypeId) → register_service_alias r c t a ≡ done c' → AliasesAreFlat r c'
  unfolding register_service_alias
  register_service_alias-AliasesAreFlat t a h =
      let e : record c { aliases = set c.aliases a t } ≡ c' = ground arith in
      let other : is_a_target a (all 0 c.aliases) ≡ false = ground arith in
      subst (AliasesAreFlat r) e (record {
        valid = set-IsValid c.aliases a t inv.valid;
        flat = λ b u p. ground (
          arith,
          get-set c.aliases a b t,
          has-set c.aliases a u t,
          inv.flat b u,
          get-all 0 c.aliases b inv.valid,
          not_a_target a b u (all 0 c.aliases) other,
          nat_beq_iff a u,
          nat_beq_iff t a,
          nat_beq_iff u a,
        );
        apart = λ b p. ground (arith, has-set c.aliases a b t, inv.apart b, nat_beq_iff a b);
        fits = λ b u p. ground (arith, get-set c.aliases a b t, inv.fits b u, nat_beq_iff a b);
      })

-- The containers that a sequence of registrations makes of a new one
pub data Reachable (r : Reflect) : Container → Type 0 where
  new : Reachable r new_service_container
  by_service :
      (c c' : Container) (t : TypeId) (ct : Ctor) (lifetime : ServiceLifetime)
      → Reachable r c
      → register_service r c t ct lifetime ≡ done c'
      → Reachable r c'
  by_instance :
      (c c' : Container) (t : TypeId) (v : Value)
      → Reachable r c
      → register_service_instance c t v ≡ done c'
      → Reachable r c'
  by_alias :
      (c c' : Container) (t a : TypeId)
      → Reachable r c
      → register_service_alias r c t a ≡ done c'
      → Reachable r c'

new-AliasesAreFlat : (r : Reflect) → AliasesAreFlat r new_service_container
unfolding get has
new-AliasesAreFlat r = record {
  valid = empty-IsValid;
  flat = λ a t h. cc;
  apart = λ a h. cc;
  fits = λ a t h. cc;
}

-- After any sequence of RegisterService, RegisterServiceInstance and RegisterServiceAlias, an alias
-- is an interface that its target implements, it has no service of its own, and no alias leads to
-- another.
pub Reachable-AliasesAreFlat : (r : Reflect) (c : Container) → Reachable r c → AliasesAreFlat r c
Reachable-AliasesAreFlat r _ new = new-AliasesAreFlat r
Reachable-AliasesAreFlat r _ (by_service c c' t ct lifetime before h) =
    register_service-AliasesAreFlat r c c' (Reachable-AliasesAreFlat r c before) t ct lifetime h
Reachable-AliasesAreFlat r _ (by_instance c c' t v before h) =
    register_service_instance-AliasesAreFlat r c c' (Reachable-AliasesAreFlat r c before) t v h
Reachable-AliasesAreFlat r _ (by_alias c c' t a before h) =
    register_service_alias-AliasesAreFlat r c c' (Reachable-AliasesAreFlat r c before) t a h

-- With flat aliases, looking an alias up twice is looking it up once: no target is an alias.
pub alias_target-alias_target :
    (r : Reflect) (c : Container) (t : TypeId)
    → AliasesAreFlat r c
    → alias_target c.aliases (alias_target c.aliases t) ≡ alias_target c.aliases t
unfolding alias_target
alias_target-alias_target r c t inv = elim (Option-cases (get c.aliases t)) [
  | inl plain ↦ ground arith
  | inr (u, e) ↦ ground (arith, inv.flat t u e, has-get c.aliases u)
]
