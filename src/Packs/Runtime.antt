-- ===== src/Packs/Runtime.antt =====
-- The resolver of internal/packs/resolver.go, and the matches of internal/packs/runtime.go.
pub mod Loaded
pub mod Matched
pub mod Rewritten
use solomon.Prelude.{
  ℕ, zero, suc, ◌+◌, Bool, true, false, not, ◌&&◌, ◌||◌, Option, none, some, List, [], ◌∷◌, ◌++◌,
  map, leb, ◌==◌, if◌then◌else◌, Result, ok, err, ◌>>=◌, ◌>>◌, guard, length, drop, take, any, all,
  Text, codes, equal, elem, text_lt, contains_rune, contains_any, is_control, trim_space, fields,
  join_with, byte_len, sort,
}
use solomon.Diagnose.Decision.{risk_text}
use solomon.Diagnose.Engine.Values.{SemanticMatch, Resolution, failed, unmatched, matched}
use solomon.Daemon.Service.{RuntimeMatch}
use solomon.Packs.Templates.{is_bidi_control}
use solomon.Packs.Rules.{
  Rule, Pack, Found, Regexps, PackError, duplicate_pack, matcher_conflict, CompiledRule,
  CompiledPack, compile,
}

-- rule.Command + "\x00" + rule.Pattern
abbrev pub matcher : Rule → Text
matcher rule = rule.command ++ 0 ∷ rule.pattern

abbrev pub pack_before : Pack → Pack → Bool
pack_before a b = text_lt a.id b.id

-- The places of this file that ask ctx.Err: on the entry of MatchLineContext and of
-- MatchWordsContext, and in front of each pack and of each rule.
pub data RuntimePoll : Type 0 where
  on_line on_words : RuntimePoll
  at_pack : ℕ → RuntimePoll
  at_rule : ℕ → ℕ → RuntimePoll

unfoldable pub safe_word : Text → Bool
safe_word word =
    not (equal word [])
    && not (contains_any word (codes " \t\r\n'\"\\`$;|&()<>*?[]{}"))
    && not (any (λ c. is_control c || is_bidi_control c) word)

unfoldable pub safe_tail : List Text → Bool
unfolding safe_word
safe_tail = all safe_word

unfoldable pub simple_command_line : Text → Bool
simple_command_line line =
    not (equal (trim_space line) [])
    && equal (trim_space line) line
    && leb (byte_len line) 8192
    && not (contains_any line (codes "'\"\\`$;|&()\r\n"))
    && not (contains_rune line 0)

abbrev pub is_nil : List Text → Bool
is_nil [] = true
is_nil (word ∷ words) = false

abbrev pub first_text : List Text → Text
first_text [] = []
first_text (word ∷ words) = word

abbrev pub ids : List Pack → List Text
ids [] = []
ids (p ∷ ps) = p.id ∷ ids ps

-- indices == nil || indices[0] != 0 || indices[1] != len(value)
abbrev pub whole : Text → Option Found → Option Found
whole value none = none
whole value (some found) =
    if found.start == 0 && found.end == byte_len value then some found else none

abbrev pub or_rest {ℓ} : {A B : Type ℓ} → Option A → (A → B) → Option B → Option B
or_rest none f rest = rest
or_rest (some a) f rest = some (f a)

abbrev pub or_resolution : Option SemanticMatch → Resolution → Resolution
or_resolution none next = next
or_resolution (some m) next = matched m

abbrev pub line_match : {E : Type 0} → E → Resolution → Result E (Option RuntimeMatch)
line_match e failed = err e
line_match e unmatched = ok none
line_match e (matched m) = ok (
    some record {
      pack_id = m.pack_id;
      rule_id = m.rule_id;
      source = m.source;
      suggestion = m.suggestion;
      cause = m.cause;
      risk = risk_text m.risk;
      rationale = m.rationale;
    })

module _ (regexps : Regexps) where
  -- The loop of Resolve over the rules of a pack: the matchers seen behind it.
  unfoldable pub add_matchers :
      Text → List Text → List (CompiledRule regexps) → Result PackError (List Text)
  add_matchers id seen [] = ok seen
  add_matchers id seen (r ∷ rules) =
      let rest = add_matchers id (matcher r.rule ∷ seen) rules in
      if elem (matcher r.rule) seen then err (matcher_conflict id r.rule.id) else rest

  -- The loop of Resolve over the packs. The message of a conflict names the other rule as well.
  unfoldable pub resolve_packs :
      List Text → List Text → List Pack → Result PackError (List (CompiledPack regexps))
  unfolding add_matchers
  resolve_packs seen_packs seen_matchers [] = ok []
  resolve_packs seen_packs seen_matchers (pack ∷ packs) = do
    guard (not (elem pack.id seen_packs)) (duplicate_pack pack.id)
    compiled ← compile regexps pack
    matchers ← add_matchers pack.id seen_matchers compiled.rules
    rest ← resolve_packs (pack.id ∷ seen_packs) matchers packs
    ok (compiled ∷ rest)

  -- Where two packs have one id, the result is an error whichever of them is first.
  unfoldable pub resolve : List Pack → Result PackError (List (CompiledPack regexps))
  unfolding resolve_packs
  resolve packs = resolve_packs [] [] (sort pack_before packs)

  pub record RuntimePack : Type 0 where
    pub compiled : CompiledPack regexps
    pub source : Text

  abbrev pub with_source : List Text → CompiledPack regexps → RuntimePack
  with_source installed_ids p = record {
    compiled = p;
    source = if elem p.pack.id installed_ids then codes "installed" else codes "bundled";
  }

  -- NewRuntimeResolverWithInstalled; NewRuntimeResolver has no installed packs.
  unfoldable pub new_runtime_resolver : List Pack → List Pack → Result PackError (List RuntimePack)
  new_runtime_resolver bundled installed = do
    resolved ← resolve (bundled ++ installed)
    ok (map (with_source (ids installed)) resolved)

  unfoldable pub runtime_semantic_match :
      RuntimePack
      → CompiledRule regexps
      → Text
      → List Text
      → Text
      → Found
      → List Text
      → SemanticMatch
  runtime_semantic_match pack r command arguments value found rest =
      let expanded = regexps.expand r.pattern r.rule.replacement value found in
      let replacement =
        if is_nil rest then expanded else expanded ++ (codes " " ++ join_with (codes " ") rest) in
      let one_word = length arguments == 1 && is_nil rest && not (contains_rune replacement b' ') in
      record {
        pack_id = pack.compiled.pack.id;
        rule_id = r.rule.id;
        source = pack.source;
        suggestion = command ++ (codes " " ++ replacement);
        cause = regexps.expand r.pattern r.rule.cause value found;
        risk = r.rule.risk;
        rationale = r.rule.risk_rationale;
        original = if one_word then first_text arguments else [];
        replacement = if one_word then replacement else [];
        occurrence = if one_word then 1 else 0;
      }

  -- The loop over argumentCount, from the given number down to 1.
  unfoldable pub match_arguments :
      RuntimePack → CompiledRule regexps → Text → List Text → ℕ → Option SemanticMatch
  unfolding runtime_semantic_match
  match_arguments pack r command arguments zero = none
  match_arguments pack r command arguments (suc count) =
      let fewer = match_arguments pack r command arguments count in
      let rest = drop (suc count) arguments in
      let value = join_with (codes " ") (take (suc count) arguments) in
      let here =
        or_rest (whole value (regexps.find r.pattern value))
          (λ found. runtime_semantic_match pack r command arguments value found rest) fewer in
      if not (suc count == length arguments) && not r.rule.preserve_tail
      then none
      else if not (is_nil rest) && not (safe_tail rest)
      then fewer
      else here

  module _ (cancelled : RuntimePoll → Bool) where
    -- The loop over the rules of a pack, from the rule with the given index.
    unfoldable pub match_rules :
        RuntimePack
        → Text
        → List Text
        → ℕ
        → ℕ
        → List (CompiledRule regexps)
        → Resolution
        → Resolution
    unfolding match_arguments
    match_rules pack command arguments p i [] next = next
    match_rules pack command arguments p i (r ∷ rules) next =
        let others = match_rules pack command arguments p (i + 1) rules next in
        if cancelled (at_rule p i)
        then failed
        else if not (equal r.rule.command command)
        then others
        else or_resolution (match_arguments pack r command arguments (length arguments)) others

    unfoldable pub match_packs : Text → List Text → ℕ → List RuntimePack → Resolution
    unfolding match_rules
    match_packs command arguments p [] = unmatched
    match_packs command arguments p (pack ∷ packs) =
        let others = match_packs command arguments (p + 1) packs in
        if cancelled (at_pack p)
        then failed
        else match_rules pack command arguments p 0 pack.compiled.rules others

    -- MatchWordsContext
    unfoldable pub match_words : List RuntimePack → List Text → Resolution
    unfolding match_packs
    match_words packs [] = if cancelled on_words then failed else unmatched
    match_words packs (w ∷ []) = if cancelled on_words then failed else unmatched
    match_words packs (command ∷ w ∷ words) =
        if cancelled on_words then failed else match_packs command (w ∷ words) 0 packs

    -- MatchLineContext, with the error of a cancelled context
    unfoldable pub match_line :
        {E : Type 0} → E → List RuntimePack → Text → Result E (Option RuntimeMatch)
    unfolding match_words simple_command_line
    match_line e packs line =
        if cancelled on_line
        then err e
        else if not (simple_command_line line)
        then ok none
        else line_match e (match_words packs (fields line))
