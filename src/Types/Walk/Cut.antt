-- ===== src/Types/Walk/Cut.antt =====
-- crates/idakit/src/types/diff/canonical/model.rs: the shape of a canonical form.
use idakit.Base.{
  ℕ, zero, suc, true, false, Option, none, some, List, [], ◌∷◌, ◌≡◌, refl, subst, Str, length,
  >>=-some,
}
use idakit.Canonical.{AggregateKind, RecordKind, from_record, CanonicalType, Members, Params}
use idakit.Types.Table.{TypeId, TypeMember, EnumMember, TypeShape, TypeTable, get_type}
use idakit.Types.Walk.{
  CanonicalOptions, real_tag, cut_tag, nominal_cut, levels_up, arrange, Walker, canon_members,
  canon_params, spell_aggregate, close_cycle, after_cut, aggregate, spell_enum, walk, canon,
  canonicalize,
}
use idakit.Types.Walk.Shape.{
  IsBelow, AreBelow, ParamsBelow, IsRoot, some_eq, levels_up-bounds, arrange-AreBelow,
}

module _ (opts : CanonicalOptions) (rec : Walker)
    (ih : (j : TypeId) (st : List TypeId) (c : CanonicalType)
      → rec j st ≡ some c
      → IsBelow (length st) c) where
  canon_members-AreBelow :
      (st : List TypeId) (ms : List TypeMember) (out : Members)
      → canon_members opts rec st ms ≡ some out
      → AreBelow (length st) out
  unfolding canon_members AreBelow
  canon_members-AreBelow st [] out h = subst (AreBelow (length st)) (some_eq h) tt
  canon_members-AreBelow st (m ∷ ms) out h =
      let (t, p, h1) = >>=-some (rec m.ty st) _ h in
      let (rest, q, h2) = >>=-some (canon_members opts rec st ms) _ h1 in
      subst (AreBelow (length st)) (some_eq h2)
        (ih m.ty st t p, canon_members-AreBelow st ms rest q)

  canon_params-ParamsBelow :
      (st : List TypeId) (ps : List TypeId) (out : Params)
      → canon_params opts rec st ps ≡ some out
      → ParamsBelow (length st) out
  unfolding canon_params ParamsBelow
  canon_params-ParamsBelow st [] out h = subst (ParamsBelow (length st)) (some_eq h) tt
  canon_params-ParamsBelow st (p ∷ ps) out h =
      let (t, e, h1) = >>=-some (rec p st) _ h in
      let (rest, q, h2) = >>=-some (canon_params opts rec st ps) _ h1 in
      subst (ParamsBelow (length st)) (some_eq h2)
        (ih p st t e, canon_params-ParamsBelow st ps rest q)

  -- The members of a spelled aggregate are below it, whether it is a root or not.
  spell_aggregate-AreBelow :
      (i : TypeId) (k : RecordKind) (n : Option Str) (ms : List TypeMember) (s : Option ℕ)
      (st : List TypeId) (c : CanonicalType)
      → spell_aggregate opts rec i k n ms s st ≡ some c
      → (out : Members) × (z : Option ℕ) × (CanonicalType.aggregate (real_tag n) k out z ≡ c)
        × AreBelow (suc (length st)) out
  unfolding spell_aggregate
  spell_aggregate-AreBelow i k n ms s st c h =
      let (done, p, h1) = >>=-some (canon_members opts rec (i ∷ st) ms) _ h in
      (
        arrange k done,
        _,
        some_eq h1,
        arrange-AreBelow (suc (length st)) k done (canon_members-AreBelow (i ∷ st) ms done p),
      )

  after_cut-IsBelow :
      (i : TypeId) (k : RecordKind) (n : Option Str) (ms : List TypeMember) (s : Option ℕ)
      (st : List TypeId) (c : CanonicalType)
      → aggregate opts rec i k n ms s st false ≡ some c
      → IsBelow (length st) c
  unfolding aggregate nominal_cut IsBelow
  after_cut-IsBelow i k n ms s st c h = cut (real_tag n) refl h
    where
      spelled :
          real_tag n ≡ none
          → spell_aggregate opts rec i k n ms s st ≡ some c
          → IsBelow (length st) c
      spelled e q =
          let (out, z, f, b) = spell_aggregate-AreBelow i k n ms s st c q in
          subst (IsBelow (length st)) f (e, b)

      closed :
          real_tag n ≡ none
          → (o : Option ℕ) → levels_up i st ≡ o
          → close_cycle opts rec i k n ms s st o ≡ some c
          → IsBelow (length st) c
      closed e (some up) l q = subst (IsBelow (length st)) (some_eq q) (levels_up-bounds i st up l)
      closed e none l q = spelled e q

      cut :
          (o : Option Str)
          → real_tag n ≡ o
          → after_cut opts rec i k n ms s st (cut_tag o (from_record k) false) ≡ some c
          → IsBelow (length st) c
      cut (some tag) e q = subst (IsBelow (length st)) (some_eq q) tt
      cut none e q = closed e (levels_up i st) refl q

  spell_enum-IsBelow :
      (n : Option Str) (u : TypeId) (ms : List EnumMember) (s : Option ℕ) (st : List TypeId)
      (c : CanonicalType)
      → spell_enum opts rec n u ms s st (nominal_cut n AggregateKind.enum false) ≡ some c
      → IsBelow (length st) c
  unfolding spell_enum nominal_cut IsBelow
  spell_enum-IsBelow n u ms s st c h = cut (real_tag n) refl h
    where
      cut :
          (o : Option Str)
          → real_tag n ≡ o
          → spell_enum opts rec n u ms s st (cut_tag o AggregateKind.enum false) ≡ some c
          → IsBelow (length st) c
      cut (some tag) e q = subst (IsBelow (length st)) (some_eq q) tt
      cut none e q =
          let (t, p, f) = >>=-some (rec u st) _ q in
          subst (IsBelow (length st)) (some_eq f) (e, ih u st t p)

  -- What the walk of a child gives.
  walk-IsBelow :
      (i : TypeId) (st : List TypeId) (s : Option ℕ) (shape : TypeShape) (c : CanonicalType)
      → walk opts rec i st false s shape ≡ some c
      → IsBelow (length st) c
  unfolding walk IsBelow
  walk-IsBelow i st s TypeShape.void c h = subst (IsBelow (length st)) (some_eq h) tt
  walk-IsBelow i st s TypeShape.bool c h = subst (IsBelow (length st)) (some_eq h) tt
  walk-IsBelow i st s (TypeShape.int b g) c h = subst (IsBelow (length st)) (some_eq h) tt
  walk-IsBelow i st s (TypeShape.float b) c h = subst (IsBelow (length st)) (some_eq h) tt
  walk-IsBelow i st s (TypeShape.ptr e) c h =
      let (t, p, f) = >>=-some (rec e st) _ h in
      subst (IsBelow (length st)) (some_eq f) (ih e st t p)
  walk-IsBelow i st s (TypeShape.array e n) c h =
      let (t, p, f) = >>=-some (rec e st) _ h in
      subst (IsBelow (length st)) (some_eq f) (ih e st t p)
  walk-IsBelow i st s (TypeShape.struct n ms) c h =
      after_cut-IsBelow i RecordKind.struct n ms s st c h
  walk-IsBelow i st s (TypeShape.union n ms) c h =
      after_cut-IsBelow i RecordKind.union n ms s st c h
  walk-IsBelow i st s (TypeShape.enumeration n u ms b r) c h = spell_enum-IsBelow n u ms s st c h
  walk-IsBelow i st s (TypeShape.function ret ps v) c h =
      let (r, p, h1) = >>=-some (rec ret st) _ h in
      let (out, q, f) = >>=-some (canon_params opts rec st ps) _ h1 in
      subst (IsBelow (length st)) (some_eq f) (ih ret st r p, canon_params-ParamsBelow st ps out q)
  walk-IsBelow i st s (TypeShape.typedef n e) c h =
      let (t, p, f) = >>=-some (rec e st) _ h in
      subst (IsBelow (length st)) (some_eq f) (ih e st t p)
  walk-IsBelow i st s (TypeShape.opaque n) c h = subst (IsBelow (length st)) (some_eq h) tt
  walk-IsBelow i st s TypeShape.unknown c h = subst (IsBelow (length st)) (some_eq h) tt

  spell_enum-IsRoot :
      (n : Option Str) (u : TypeId) (ms : List EnumMember) (s : Option ℕ) (c : CanonicalType)
      → spell_enum opts rec n u ms s [] (nominal_cut n AggregateKind.enum true) ≡ some c
      → IsRoot c
  unfolding spell_enum nominal_cut IsRoot
  spell_enum-IsRoot n u ms s c h = cut (real_tag n) h
    where
      cut :
          (o : Option Str)
          → spell_enum opts rec n u ms s [] (cut_tag o AggregateKind.enum true) ≡ some c
          → IsRoot c
      cut (some tag) q =
          let (t, p, f) = >>=-some (rec u []) _ q in subst IsRoot (some_eq f) (ih u [] t p)
      cut none q = let (t, p, f) = >>=-some (rec u []) _ q in subst IsRoot (some_eq f) (ih u [] t p)

  aggregate-IsRoot :
      (i : TypeId) (k : RecordKind) (n : Option Str) (ms : List TypeMember) (s : Option ℕ)
      (c : CanonicalType)
      → aggregate opts rec i k n ms s [] true ≡ some c
      → IsRoot c
  unfolding aggregate nominal_cut IsRoot
  aggregate-IsRoot i k n ms s c h = cut (real_tag n) h
    where
      spelled : spell_aggregate opts rec i k n ms s [] ≡ some c → IsRoot c
      spelled q =
          let (out, z, f, b) = spell_aggregate-AreBelow i k n ms s [] c q in subst IsRoot f b

      cut :
          (o : Option Str)
          → after_cut opts rec i k n ms s [] (cut_tag o (from_record k) true) ≡ some c
          → IsRoot c
      cut (some tag) q = spelled q
      cut none q = spelled q

  -- What the walk of the root gives.
  walk-IsRoot :
      (i : TypeId) (s : Option ℕ) (shape : TypeShape) (c : CanonicalType)
      → walk opts rec i [] true s shape ≡ some c
      → IsRoot c
  unfolding walk IsRoot
  walk-IsRoot i s TypeShape.void c h = subst IsRoot (some_eq h) tt
  walk-IsRoot i s TypeShape.bool c h = subst IsRoot (some_eq h) tt
  walk-IsRoot i s (TypeShape.int b g) c h = subst IsRoot (some_eq h) tt
  walk-IsRoot i s (TypeShape.float b) c h = subst IsRoot (some_eq h) tt
  walk-IsRoot i s (TypeShape.ptr e) c h =
      let (t, p, f) = >>=-some (rec e []) _ h in subst IsRoot (some_eq f) (ih e [] t p)
  walk-IsRoot i s (TypeShape.array e n) c h =
      let (t, p, f) = >>=-some (rec e []) _ h in subst IsRoot (some_eq f) (ih e [] t p)
  walk-IsRoot i s (TypeShape.struct n ms) c h = aggregate-IsRoot i RecordKind.struct n ms s c h
  walk-IsRoot i s (TypeShape.union n ms) c h = aggregate-IsRoot i RecordKind.union n ms s c h
  walk-IsRoot i s (TypeShape.enumeration n u ms b r) c h = spell_enum-IsRoot n u ms s c h
  walk-IsRoot i s (TypeShape.function ret ps v) c h =
      let (r, p, h1) = >>=-some (rec ret []) _ h in
      let (out, q, f) = >>=-some (canon_params opts rec [] ps) _ h1 in
      subst IsRoot (some_eq f) (ih ret [] r p, canon_params-ParamsBelow [] ps out q)
  walk-IsRoot i s (TypeShape.typedef n e) c h =
      let (t, p, f) = >>=-some (rec e []) _ h in subst IsRoot (some_eq f) (ih e [] t p)
  walk-IsRoot i s (TypeShape.opaque n) c h = subst IsRoot (some_eq h) tt
  walk-IsRoot i s TypeShape.unknown c h = subst IsRoot (some_eq h) tt

canon-IsBelow :
    (fuel : ℕ) (t : TypeTable) (opts : CanonicalOptions) (i : TypeId) (st : List TypeId)
    (c : CanonicalType)
    → canon fuel t opts i st false ≡ some c
    → IsBelow (length st) c
unfolding canon
canon-IsBelow zero t opts i st c h = absurd (none_type h)
  where
    none_type : ◌≡◌ {A = Option CanonicalType} none (some c) → ⊥
    none_type e = cc
canon-IsBelow (suc fuel) t opts i st c h =
    let (v, p, q) = >>=-some (get_type t i) _ h in
    walk-IsBelow opts (λ j s. canon fuel t opts j s false)
      (λ j s d. canon-IsBelow fuel t opts j s d) i st v.size v.shape c q

pub canonicalize-IsRoot :
    (fuel : ℕ) (t : TypeTable) (root : TypeId) (opts : CanonicalOptions) (c : CanonicalType)
    → canonicalize fuel t root opts ≡ some c
    → IsRoot c
unfolding canonicalize
canonicalize-IsRoot zero t root opts c h = absurd (none_type h)
  where
    none_type : ◌≡◌ {A = Option CanonicalType} none (some c) → ⊥
    none_type e = cc
canonicalize-IsRoot (suc fuel) t root opts c h =
    let (v, p, q) = >>=-some (get_type t root) _ h in
    walk-IsRoot opts (λ j s. canon fuel t opts j s false) (λ j s d. canon-IsBelow fuel t opts j s d)
      root v.size v.shape c q
