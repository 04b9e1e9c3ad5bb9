-- ===== src/Packs/Runtime/Matched.antt =====
-- What a match of the packs is, and which packs and rules are passed over.
use solomon.Prelude.{
  ℕ, zero, suc, ◌+◌, ◌≤◌, ◌<◌, ◌≡◌, refl, ◌⊎◌, inl, inr, Bool, true, false, not, ◌&&◌, Option, none,
  some, List, [], ◌∷◌, arith, ◌==◌, Bool-cases, length, drop, take, All, Text, codes, equal,
  equal_iff, join_with,
}
use solomon.Diagnose.Engine.Values.{SemanticMatch, Resolution, matched}
use solomon.Packs.Rules.{Found, Regexps, CompiledRule}
use solomon.Packs.Runtime.{
  RuntimePoll, safe_tail, is_nil, RuntimePack, runtime_semantic_match, whole, or_rest,
  match_arguments, or_resolution, match_rules, match_packs, match_words,
}

-- Some member has the property, with the member that has it.
abbrev pub Some {ℓ} : {A : Type ℓ} → (A → Type 0) → List A → Type 0
Some P [] = ⊥
Some P (x ∷ xs) = P x ⊎ Some P xs

-- A member with the property, among members that all have another one.
pub some_of_all {ℓ κ ν} :
    {A : Type ℓ} (P : A → Type κ) (Q : A → Type 0) {R : Type ν} (xs : List A)
    → ((x : A) → P x → Q x → R)
    → All P xs
    → Some Q xs
    → R
some_of_all P Q [] both a s = elim s [ ]
some_of_all P Q (x ∷ xs) both a (inl here) = both x a.0 here
some_of_all P Q (x ∷ xs) both a (inr later) = some_of_all P Q xs both a.1 later

-- The words that a rule matched: the first words of the arguments, as many as are read; the rest is
-- kept as it is, if the rule keeps a tail and its words are harmless.
pub record MatchedBy (regexps : Regexps) (pack : RuntimePack regexps) (command : Text)
    (arguments : List Text) (m : SemanticMatch) (r : CompiledRule regexps) : Type 0 where
  pub count : ℕ
  pub found : Found
  pub same_command : r.rule.command ≡ command
  pub count_bounds : (0 < count) × (count ≤ length arguments)
  pub tail_kept :
      (count ≡ length arguments)
      ⊎ ((r.rule.preserve_tail ≡ true) × (safe_tail (drop count arguments) ≡ true))
  pub whole_value :
      whole
        (join_with (codes " ") (take count arguments))
        (regexps.find r.pattern (join_with (codes " ") (take count arguments)))
      ≡ some found
  pub result :
      m
      ≡ runtime_semantic_match regexps pack r command arguments
          (join_with (codes " ") (take count arguments))
          found
          (drop count arguments)

drop-all {ℓ} : {A : Type ℓ} (xs : List A) → drop (length xs) xs ≡ []
drop-all [] = refl
drop-all (x ∷ xs) = drop-all xs

or_rest-some {ℓ} :
    {A B : Type ℓ} (o : Option A) (f : A → B) (rest : Option B) (b : B)
    → or_rest o f rest ≡ some b
    → ((a : A) × (o ≡ some a) × (b ≡ f a)) ⊎ (rest ≡ some b)
or_rest-some none f rest b h = inr h
or_rest-some (some a) f rest b h = inl (a, refl, cc)

safe_of :
    (rest : List Text) → (not (is_nil rest) && not (safe_tail rest)) ≡ false → safe_tail rest ≡ true
unfolding safe_tail
safe_of [] h = refl
safe_of (word ∷ rest) h = ground arith

kept :
    (count total : ℕ) (tail_allowed : Bool) (rest : List Text)
    → (not (count == total) && not tail_allowed) ≡ false
    → (not (is_nil rest) && not (safe_tail rest)) ≡ false
    → (count ≡ total) ⊎ ((tail_allowed ≡ true) × (safe_tail rest ≡ true))
kept count total tail_allowed rest go try = elim (Bool-cases (count == total)) [
  | inl whole_line ↦ inl (ground arith)
  | inr fewer ↦ inr (ground arith, safe_of rest try)
]

or_resolution-matched :
    (o : Option SemanticMatch) (next : Resolution) (m : SemanticMatch)
    → or_resolution o next ≡ matched m
    → (o ≡ some m) ⊎ (next ≡ matched m)
or_resolution-matched none next m h = inr h
or_resolution-matched (some n) next m h = inl (cc)

module _ (regexps : Regexps) (pack : RuntimePack regexps) (r : CompiledRule regexps)
    (command : Text) (arguments : List Text) (m : SemanticMatch) where
  match_arguments-MatchedBy :
      (count : ℕ)
      → r.rule.command ≡ command
      → count ≤ length arguments
      → match_arguments regexps pack r command arguments count ≡ some m
      → MatchedBy regexps pack command arguments m r
  unfolding match_arguments
  match_arguments-MatchedBy zero same bound h = absurd (cc)
  match_arguments-MatchedBy (suc count) same bound h =
      let rest : List Text = drop (suc count) arguments in
      let value : Text = join_with (codes " ") (take (suc count) arguments) in
      let fewer = match_arguments-MatchedBy count same (omega arith) in
      elim (Bool-cases (not (suc count == length arguments) && not r.rule.preserve_tail)) [
        | inl stop ↦ absurd (ground arith)
        | inr go ↦ elim (Bool-cases (not (is_nil rest) && not (safe_tail rest))) [
          | inl skip ↦ fewer (ground arith)
          | inr try ↦
              elim (or_rest-some (whole value (regexps.find r.pattern value))
                (λ found. runtime_semantic_match regexps pack r command arguments value found rest)
                (match_arguments regexps pack r command arguments count) m (ground arith)) [
                  | inl (found, e, result) ↦ record {
                    count = suc count;
                    found = found;
                    same_command = same;
                    count_bounds = (omega arith, bound);
                    tail_kept =
                        kept (suc count) (length arguments) r.rule.preserve_tail rest go try;
                    whole_value = e;
                    result = result;
                  }
                  | inr later ↦ fewer later
                ]
        ]
      ]

module _ (regexps : Regexps) (cancelled : RuntimePoll → Bool) (command : Text)
    (arguments : List Text) (m : SemanticMatch) where
  match_rules-MatchedBy :
      (pack : RuntimePack regexps) (p i : ℕ) (rules : List (CompiledRule regexps))
      (next : Resolution)
      → match_rules regexps cancelled pack command arguments p i rules next ≡ matched m
      → Some (MatchedBy regexps pack command arguments m) rules ⊎ (next ≡ matched m)
  unfolding match_rules
  match_rules-MatchedBy pack p i [] next h = inr h
  match_rules-MatchedBy pack p i (r ∷ rules) next h =
      let others = match_rules-MatchedBy pack p (i + 1) rules next in
      elim (Bool-cases (cancelled (RuntimePoll.at_rule p i))) [
        | inl stop ↦ absurd (ground arith)
        | inr go ↦ elim (Bool-cases (equal r.rule.command command)) [
          | inr differs ↦ later (others (ground arith))
          | inl same ↦
              elim (or_resolution-matched
                (match_arguments regexps pack r command arguments (length arguments)) _ m
                (ground arith)) [
                  | inl here ↦ inl (
                      inl (
                        match_arguments-MatchedBy regexps pack r command arguments m
                          (length arguments) ((equal_iff _ _).0 same) (omega arith) here))
                  | inr rest ↦ later (others rest)
                ]
        ]
      ]
    where
      later :
          Some (MatchedBy regexps pack command arguments m) rules ⊎ (next ≡ matched m)
          → Some (MatchedBy regexps pack command arguments m) (r ∷ rules) ⊎ (next ≡ matched m)
      later (inl s) = inl (inr s)
      later (inr e) = inr e

  abbrev pub MatchedIn : RuntimePack regexps → Type 0
  MatchedIn pack = Some (MatchedBy regexps pack command arguments m) pack.compiled.rules

  match_packs-MatchedIn :
      (p : ℕ) (packs : List (RuntimePack regexps))
      → match_packs regexps cancelled command arguments p packs ≡ matched m
      → Some MatchedIn packs
  unfolding match_packs
  match_packs-MatchedIn p [] h = absurd (cc)
  match_packs-MatchedIn p (pack ∷ packs) h = elim (Bool-cases (cancelled (RuntimePoll.at_pack p))) [
    | inl stop ↦ absurd (ground arith)
    | inr go ↦
        elim (match_rules-MatchedBy pack p 0 pack.compiled.rules
          (match_packs regexps cancelled command arguments (p + 1) packs) (ground arith)) [
            | inl here ↦ inl here
            | inr rest ↦ inr (match_packs-MatchedIn (p + 1) packs rest)
          ]
  ]

module _ (regexps : Regexps) (cancelled : RuntimePoll → Bool) (m : SemanticMatch) where
  -- A match of words comes from a rule of a pack for the first word: the expression matches, whole,
  -- the words behind it, all of them or, for a rule that keeps a tail, some with harmless words
  -- after them.
  pub match_words-MatchedIn :
      (packs : List (RuntimePack regexps)) (command : Text) (arguments : List Text)
      → match_words regexps cancelled packs (command ∷ arguments) ≡ matched m
      → Some (MatchedIn regexps cancelled command arguments m) packs
  unfolding match_words
  match_words-MatchedIn packs command [] h = absurd (ground arith)
  match_words-MatchedIn packs command (w ∷ words) h =
      match_packs-MatchedIn regexps cancelled command (w ∷ words) m 0 packs (ground arith)

-- What holds of the members with a property, where it follows for each.
pub Some-map {ℓ κ} :
    {A : Type ℓ} (P : A → Type κ) (Q R : A → Type 0) (xs : List A)
    → ((x : A) → P x → Q x → R x)
    → All P xs
    → Some Q xs
    → Some R xs
Some-map P Q R [] both a s = s
Some-map P Q R (x ∷ xs) both a (inl here) = inl (both x a.0 here)
Some-map P Q R (x ∷ xs) both a (inr later) = inr (Some-map P Q R xs both a.1 later)
