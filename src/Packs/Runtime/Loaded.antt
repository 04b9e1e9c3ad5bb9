-- ===== src/Packs/Runtime/Loaded.antt =====
-- What a resolver is made of: the packs it was given, each compiled, and their sources.
use solomon.Prelude.{
  ◌≡◌, refl, ap, ◌∙◌, inl, inr, Bool, true, false, not, ◌&&◌, List, [], ◌∷◌, ◌++◌, map, arith,
  if◌then◌else◌, Bool-cases, ok, guard, >>=-eq-ok, All, Text, codes, elem, sort,
}
use solomon.Packs.Rules.{Pack, Regexps, CompiledRule, CompiledPack, compile, PackError}
use solomon.Packs.Rules.Accepted.{IsSoundRule, compile-IsSoundRule}
use solomon.Packs.Runtime.{
  matcher, pack_before, add_matchers, resolve_packs, resolve, RuntimePack, ids, with_source,
  new_runtime_resolver,
}

-- The matchers of rules, and of packs, in order.
abbrev pub matchers : {regexps : Regexps} → List (CompiledRule regexps) → List Text
matchers [] = []
matchers (r ∷ rules) = matcher r.rule ∷ matchers rules

abbrev pub all_matchers : {regexps : Regexps} → List (CompiledPack regexps) → List Text
all_matchers [] = []
all_matchers (p ∷ packs) = matchers p.rules ++ all_matchers packs

abbrev pub pack_ids : {regexps : Regexps} → List (CompiledPack regexps) → List Text
pack_ids [] = []
pack_ids (p ∷ packs) = p.pack.id ∷ pack_ids packs

-- Are the texts apart from one another, and from those seen before?
abbrev pub apart : List Text → List Text → Bool
apart seen [] = true
apart seen (x ∷ xs) = not (elem x seen) && apart (x ∷ seen) xs

-- reversed onto
abbrev pub onto : List Text → List Text → List Text
onto seen [] = seen
onto seen (x ∷ xs) = onto (x ∷ seen) xs

apart-append :
    (seen xs ys : List Text) → apart seen (xs ++ ys) ≡ (apart seen xs && apart (onto seen xs) ys)
apart-append seen [] ys = refl
apart-append seen (x ∷ xs) ys = rw (apart-append (x ∷ seen) xs ys) (ground arith)

module _ (regexps : Regexps) where
  add_matchers-apart :
      (id : Text) (seen : List Text) (rules : List (CompiledRule regexps)) (after : List Text)
      → add_matchers regexps id seen rules ≡ ok after
      → (apart seen (matchers rules) ≡ true) × (after ≡ onto seen (matchers rules))
  unfolding add_matchers
  add_matchers-apart id seen [] after h = (refl, cc)
  add_matchers-apart id seen (r ∷ rules) after h = elim (Bool-cases (elem (matcher r.rule) seen)) [
    | inl old ↦ absurd (ground arith)
    | inr new ↦
        let (rest, behind) =
          add_matchers-apart id (matcher r.rule ∷ seen) rules after (ground arith) in
        (rw new rest, behind)
  ]

  -- Every compiled pack comes from compile, of itself; and its rules are sound.
  abbrev pub IsCompiled : CompiledPack regexps → Type 0
  IsCompiled c = (compile regexps c.pack ≡ ok c) × All (IsSoundRule regexps) c.rules

  -- What the loop over the packs returns: the packs in order, each compiled, whose ids and whose
  -- matchers are apart from one another and from those seen before.
  pub record IsResolved (seen_ids seen : List Text) (packs : List Pack)
      (resolved : List (CompiledPack regexps)) : Type 0 where
    pub packs_kept : map (λ (c : CompiledPack regexps). c.pack) resolved ≡ packs
    pub each_compiled : All IsCompiled resolved
    pub ids_apart : apart seen_ids (pack_ids resolved) ≡ true
    pub matchers_apart : apart seen (all_matchers resolved) ≡ true

  IsResolved-cons :
      (seen_ids seen after : List Text) (p : Pack) (packs : List Pack) (c : CompiledPack regexps)
      (rest : List (CompiledPack regexps))
      → elem p.id seen_ids ≡ false
      → compile regexps p ≡ ok c
      → add_matchers regexps p.id seen c.rules ≡ ok after
      → IsResolved (p.id ∷ seen_ids) after packs rest
      → IsResolved seen_ids seen (p ∷ packs) (c ∷ rest)
  IsResolved-cons seen_ids seen after p packs c rest new compiled added r =
      let (same, sound) = compile-IsSoundRule regexps p c compiled in
      let (first, behind) = add_matchers-apart p.id seen c.rules after added in
      record {
        packs_kept = ground (arith, same, r.packs_kept);
        each_compiled = ((ap (compile regexps) same ∙ compiled, sound), r.each_compiled);
        ids_apart = rw (same, new) r.ids_apart;
        matchers_apart =
            rw (apart-append seen (matchers c.rules) (all_matchers rest), first, ← behind)
              r.matchers_apart;
      }

  resolve_packs-IsResolved :
      (seen_ids seen : List Text) (packs : List Pack) (resolved : List (CompiledPack regexps))
      → resolve_packs regexps seen_ids seen packs ≡ ok resolved
      → IsResolved seen_ids seen packs resolved
  unfolding resolve_packs
  resolve_packs-IsResolved seen_ids seen [] [] h = record {
    packs_kept = refl;
    each_compiled = tt;
    ids_apart = refl;
    matchers_apart = refl;
  }
  resolve_packs-IsResolved seen_ids seen [] (c ∷ resolved) h = absurd (cc)
  resolve_packs-IsResolved seen_ids seen (p ∷ packs) resolved h =
      let (_, fresh, h1) =
        >>=-eq-ok (guard (not (elem p.id seen_ids)) (PackError.duplicate_pack p.id)) _ h in
      let (c, compiled, h2) = >>=-eq-ok (compile regexps p) _ h1 in
      let (after, added, h3) = >>=-eq-ok (add_matchers regexps p.id seen c.rules) _ h2 in
      let (rest, others, done) =
        >>=-eq-ok (resolve_packs regexps (p.id ∷ seen_ids) after packs) _ h3 in
      let same : resolved ≡ c ∷ rest = cc in
      rw same (
        IsResolved-cons seen_ids seen after p packs c rest (ground arith) compiled added
          (resolve_packs-IsResolved (p.id ∷ seen_ids) after packs rest others))

  -- A set of packs that Resolve accepts is, in the order of the ids, all of the packs, each
  -- compiled; no two of them have one id, and no two rules of any of them have one matcher.
  pub resolve-IsResolved :
      (packs : List Pack) (resolved : List (CompiledPack regexps))
      → resolve regexps packs ≡ ok resolved
      → IsResolved [] [] (sort pack_before packs) resolved
  unfolding resolve
  resolve-IsResolved packs resolved h = resolve_packs-IsResolved [] [] _ resolved h

  -- A pack of a resolver: its rules are sound, and its source says whether an installed pack has
  -- its id.
  abbrev pub IsLoaded : List Pack → RuntimePack regexps → Type 0
  IsLoaded installed p =
      All (IsSoundRule regexps) p.compiled.rules
      × (p.source ≡ (
          if elem p.compiled.pack.id (ids installed) then codes "installed" else codes "bundled"))

  with_source-IsLoaded :
      (installed : List Pack) (resolved : List (CompiledPack regexps))
      → All IsCompiled resolved
      → All (IsLoaded installed) (map (with_source regexps (ids installed)) resolved)
  with_source-IsLoaded installed [] a = tt
  with_source-IsLoaded installed (c ∷ resolved) a =
      ((a.0.1, refl), with_source-IsLoaded installed resolved a.1)

  pub new_runtime_resolver-IsLoaded :
      (bundled installed : List Pack) (resolver : List (RuntimePack regexps))
      → new_runtime_resolver regexps bundled installed ≡ ok resolver
      → All (IsLoaded installed) resolver
  unfolding new_runtime_resolver
  new_runtime_resolver-IsLoaded bundled installed resolver h =
      let (resolved, done, e) = >>=-eq-ok (resolve regexps (bundled ++ installed)) _ h in
      let same : resolver ≡ map (with_source regexps (ids installed)) resolved = cc in
      rw same
        (with_source-IsLoaded installed resolved (resolve-IsResolved _ resolved done).each_compiled)
