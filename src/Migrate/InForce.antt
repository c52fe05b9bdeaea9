-- ===== src/Migrate/InForce.antt =====
-- The SQL that the loop of RunPending brings into force.
use gas.Prelude.{
  String, string_eq, string_order, true, false, List, [], ◌∷◌, ◌++◌, if◌then◌else◌, contains, ◌≡◌,
  ◌⊎◌, sym, append_assoc, inl, inr, refl, ap, ◌∙◌,
}
use gas.Migrate.{Migration, MigrateError, commit_failed}
use gas.Migrate.Run.{Database}
use gas.Migrate.Tracking.{Tracks}

module _ {S : Type 0} (db : Database S) (laws : Tracks db) where
  -- The SQL that the loop runs for `ms`
  abbrev pub ups : List String → List Migration → List String
  ups applied [] = []
  ups applied (m ∷ ms) =
      if contains applied m.version then ups applied ms else m.up ∷ ups applied ms

  -- In force is the SQL of those in front, and, where it was its commit that failed, maybe that of `at`.
  abbrev pub RanUpTo : List String → List Migration → Migration → S → MigrateError → S → Type 0
  RanUpTo applied front at s e t =
      (laws.ran t ≡ laws.ran s ++ ups applied front)
      ⊎ (e ≡ commit_failed at.version)
        × (laws.ran t ≡ laws.ran s ++ (ups applied front ++ at.up ∷ []))

  pub ups-applied :
      (applied : List String) (m : Migration) (ms : List Migration)
      → contains applied m.version ≡ true
      → ups applied (m ∷ ms) ≡ ups applied ms
  ups-applied applied m ms there = rw (there) refl

  pub ups-pending :
      (applied : List String) (m : Migration) (ms : List Migration)
      → contains applied m.version ≡ false
      → ups applied (m ∷ ms) ≡ m.up ∷ ups applied ms
  ups-pending applied m ms new = rw (new) refl

  pub RanUpTo-applied :
      (applied : List String) (m : Migration) (front : List Migration) (at : Migration) (s t : S)
      (e : MigrateError)
      → contains applied m.version ≡ true
      → RanUpTo applied front at s e t
      → RanUpTo applied (m ∷ front) at s e t
  RanUpTo-applied applied m front at s t e there (inl ran) =
      inl (ran ∙ ap (λ l. laws.ran s ++ l) (sym (ups-applied applied m front there)))
  RanUpTo-applied applied m front at s t e there (inr (is, ran)) = inr (
    is,
    ran ∙ ap (λ l. laws.ran s ++ (l ++ at.up ∷ [])) (sym (ups-applied applied m front there)),
  )

  pub ran_on :
      (up : String) (rest : List String) (s u t : S)
      → laws.ran u ≡ laws.ran s ++ up ∷ []
      → laws.ran t ≡ laws.ran u ++ rest
      → laws.ran t ≡ laws.ran s ++ up ∷ rest
  ran_on up rest s u t first ran =
      ran ∙ ap (λ l. l ++ rest) first ∙ append_assoc (laws.ran s) (up ∷ []) rest

  pub RanUpTo-pending :
      (applied : List String) (m : Migration) (front : List Migration) (at : Migration) (s u t : S)
      (e : MigrateError)
      → contains applied m.version ≡ false
      → laws.ran u ≡ laws.ran s ++ m.up ∷ []
      → RanUpTo applied front at u e t
      → RanUpTo applied (m ∷ front) at s e t
  RanUpTo-pending applied m front at s u t e new first (inl ran) = inl (
      ran_on m.up (ups applied front) s u t first ran
      ∙ ap (λ l. laws.ran s ++ l) (sym (ups-pending applied m front new)))
  RanUpTo-pending applied m front at s u t e new first (inr (is, ran)) = inr (
    is,
    ran_on m.up (ups applied front ++ at.up ∷ []) s u t first ran
        ∙ ap (λ l. laws.ran s ++ (l ++ at.up ∷ [])) (sym (ups-pending applied m front new)),
  )
