-- ===== src/Registry/Lookup.antt =====
-- internal/skills/registry.go: what Register promises to ResolveIdentifier.
use mathlib.Core.Path.{subst}
use open_light.Base.{
  false, Option, none, some, List, [], ◌∷◌, ◌++◌, ◌≡◌, ◌⊎◌, inl, inr, refl, sym, ap, ◌∙◌, arith,
}
use open_light.Base.Text.{Text, eqt_iff, is_empty_text}
use open_light.Base.Dict.{put, text_eq}
use open_light.Registry.{
  Definition, Registry, normalize_identifier, normalize_definition, register_identifiers, register,
  resolve_identifier,
}

loop-by_name :
    (ids : List Text) (name : Text) (r : Registry)
    → (register_identifiers ids name r).registry.by_name ≡ r.by_name
unfolding register_identifiers
loop-by_name [] name r = refl
loop-by_name (i ∷ ids) name r = ground (
  arith,
  loop-by_name ids name r,
  loop-by_name ids name (record r { by_alias = put r.by_alias (normalize_identifier i) name }),
)

loop_mono :
    (ids : List Text) (name : Text) (r : Registry) (n m : Text)
    → r.by_alias n ≡ some m
    → (register_identifiers ids name r).registry.by_alias n ≡ some m
unfolding register_identifiers
loop_mono [] name r n m h = h
loop_mono (i ∷ ids) name r n m h = ground (
  arith,
  loop_mono ids name r n m,
  eqt_iff (normalize_identifier i) n,
  loop_mono ids name (record r { by_alias = put r.by_alias (normalize_identifier i) name }) n m,
)

loop_new :
    (ids : List Text) (name : Text) (r : Registry) (n m : Text)
    → (register_identifiers ids name r).registry.by_alias n ≡ some m
    → (r.by_alias n ≡ some m) ⊎ (m ≡ name)
unfolding register_identifiers
loop_new [] name r n m h = inl h
loop_new (i ∷ ids) name r n m h = ground (
  arith,
  loop_new ids name r n m,
  eqt_iff (normalize_identifier i) n,
  loop_new ids name (record r { by_alias = put r.by_alias (normalize_identifier i) name }) n m,
)

loop_first :
    (after : List Text) (i name : Text) (r : Registry) (o : Option Text)
    → r.by_alias (normalize_identifier i) ≡ o
    → (register_identifiers (i ∷ after) name r).refusal ≡ none
    → is_empty_text (normalize_identifier i) ≡ false
    → (register_identifiers (i ∷ after) name r).registry.by_alias (normalize_identifier i)
      ≡ some name
unfolding register_identifiers
loop_first after i name r none e h ne = ground (
  arith,
  eqt_iff (normalize_identifier i) (normalize_identifier i),
  loop_mono after name (record r { by_alias = put r.by_alias (normalize_identifier i) name })
      (normalize_identifier i) name,
)
loop_first after i name r (some other) e h ne =
    ground (arith, eqt_iff other name, loop_mono after name r (normalize_identifier i) name)

loop_bound :
    (before after : List Text) (i name : Text) (r : Registry)
    → (register_identifiers (before ++ i ∷ after) name r).refusal ≡ none
    → is_empty_text (normalize_identifier i) ≡ false
    → (register_identifiers (before ++ i ∷ after) name r).registry.by_alias (normalize_identifier i)
      ≡ some name
unfolding register_identifiers
loop_bound [] after i name r h ne =
    loop_first after i name r (r.by_alias (normalize_identifier i)) refl h ne
loop_bound (j ∷ before) after i name r h ne = ground (
  arith,
  loop_bound before after i name r,
  loop_bound before after i name
      (record r { by_alias = put r.by_alias (normalize_identifier j) name }),
)

-- A name that has a skill is an alias of itself.
unfoldable pub OwnAlias : Option Definition → Option Text → Text → Type 0
OwnAlias none a n = Unit
OwnAlias (some d) a n = a ≡ some n

-- An alias leads to a name that has a skill.
unfoldable pub Leads : Option Text → Registry → Type 0
Leads none r = Unit
Leads (some m) r = (d : Definition) × (r.by_name m ≡ some d)

-- What Register keeps while it is not refused: a skill is found by its name, and an alias names a
-- skill that there is.
pub record IsSound (r : Registry) : Type 0 where
  pub named : (n : Text) → OwnAlias (r.by_name n) (r.by_alias n) n
  pub aliased : (n : Text) → Leads (r.by_alias n) r

named_of :
    (r : Registry) (n : Text) (d : Definition)
    → IsSound r
    → r.by_name n ≡ some d
    → r.by_alias n ≡ some n
named_of r n d sound h = go (r.by_name n) h (sound.named n)
  where
    go : (o : Option Definition) → o ≡ some d → OwnAlias o (r.by_alias n) n → r.by_alias n ≡ some n
    go none e k = cc
    go (some x) e k = unfold OwnAlias in k

aliased_of :
    (r : Registry) (n m : Text)
    → IsSound r
    → r.by_alias n ≡ some m
    → (d : Definition) × (r.by_name m ≡ some d)
unfolding Leads
aliased_of r n m sound h = subst (λ o. Leads o r) h (sound.aliased n)

module _ (skill : Definition) (r : Registry) (sound : IsSound r)
    (accepted : (register skill r).refusal ≡ none) where
  abbrev pub own_name : Text
  own_name = normalize_identifier (normalize_definition skill).name

  abbrev started : Registry
  started = record {
    by_name = put r.by_name own_name skill;
    definitions = put r.definitions own_name (normalize_definition skill);
    by_alias = r.by_alias;
    ordered_keys = r.ordered_keys ++ own_name ∷ [];
  }

  abbrev pub ids : List Text
  ids = own_name ∷ (normalize_definition skill).aliases

  -- What an accepted skill changes in the two maps.
  record IsAdded : Type 0 where
    fresh : r.by_name own_name ≡ none
    ne_nil : is_empty_text own_name ≡ false
    loop : (register_identifiers ids own_name started).refusal ≡ none
    alias :
        (register skill r).registry.by_alias
        ≡ (register_identifiers ids own_name started).registry.by_alias
    name : (register skill r).registry.by_name ≡ put r.by_name own_name skill

  added : IsAdded
  unfolding register
  added =
      let same = loop-by_name ids own_name started in
      record {
        fresh = ground arith;
        ne_nil = ground arith;
        loop = ground arith;
        alias = ground arith;
        name = ground arith;
      }

  name_at : (n : Text) → (register skill r).registry.by_name n ≡ put r.by_name own_name skill n
  name_at n = ap (λ f. f n) added.name

  alias_at :
      (n : Text)
      → (register skill r).registry.by_alias n
        ≡ (register_identifiers ids own_name started).registry.by_alias n
  alias_at n = ap (λ f. f n) added.alias

  alias_kept :
      (n m : Text) → r.by_alias n ≡ some m → (register skill r).registry.by_alias n ≡ some m
  alias_kept n m h = alias_at n ∙ loop_mono ids own_name started n m h

  own_alias :
      (before after : List Text) (i : Text)
      → ids ≡ before ++ i ∷ after
      → is_empty_text (normalize_identifier i) ≡ false
      → (register skill r).registry.by_alias (normalize_identifier i) ≡ some own_name
  own_alias before after i e ne =
      alias_at (normalize_identifier i)
      ∙ ap
          (λ l.
            (register_identifiers l own_name started).registry.by_alias (normalize_identifier i))
          e
      ∙ loop_bound before after i own_name started
          (sym (ap (λ l. (register_identifiers l own_name started).refusal) e) ∙ added.loop) ne

  -- The name of an accepted skill, in any spelling that normalizes to it, finds the skill.
  pub resolve_identifier-own_name :
      (i : Text)
      → normalize_identifier i ≡ own_name
      → resolve_identifier i (register skill r).registry ≡ some skill
  unfolding resolve_identifier
  resolve_identifier-own_name i e =
      rw e (ground (arith, name_at own_name, eqt_iff own_name own_name, added.ne_nil))

  -- In a sound registry, an accepted skill is found by each of its cleaned identifiers.
  pub resolve_identifier-register :
      (before after : List Text) (i : Text)
      → ids ≡ before ++ i ∷ after
      → is_empty_text (normalize_identifier i) ≡ false
      → resolve_identifier i (register skill r).registry ≡ some skill
  unfolding resolve_identifier
  resolve_identifier-register before after i e ne = found (r.by_name (normalize_identifier i)) refl
    where
      found :
          (o : Option Definition)
          → r.by_name (normalize_identifier i) ≡ o
          → resolve_identifier i (register skill r).registry ≡ some skill
      found none h = ground (
        arith,
        name_at (normalize_identifier i),
        name_at own_name,
        own_alias before after i e ne,
        eqt_iff own_name (normalize_identifier i),
        eqt_iff own_name own_name,
      )
      found (some d) h =
          let mine = own_alias before after i e ne in
          let kept =
            alias_kept (normalize_identifier i) (normalize_identifier i)
              (named_of r (normalize_identifier i) d sound h) in
          ground (
            arith,
            name_at (normalize_identifier i),
            mine,
            kept,
            added.fresh,
            eqt_iff own_name (normalize_identifier i),
          )

  own_name_at :
      normalize_identifier own_name ≡ own_name
      → (register skill r).registry.by_alias own_name ≡ some own_name
  own_name_at normal =
      ap (register skill r).registry.by_alias (sym normal)
      ∙ own_alias [] (normalize_definition skill).aliases own_name refl
          (ap is_empty_text normal ∙ added.ne_nil)

  -- In a sound registry, every identifier that resolved before an accepted registration resolves to
  -- the same skill after it, if the name of the new skill is normal.
  pub resolve_identifier-kept :
      (i : Text) (d : Definition)
      → normalize_identifier own_name ≡ own_name
      → resolve_identifier i r ≡ some d
      → resolve_identifier i (register skill r).registry ≡ some d
  unfolding resolve_identifier
  resolve_identifier-kept i d normal h =
      kept (r.by_name (normalize_identifier i)) refl (r.by_alias (normalize_identifier i)) refl
    where
      kept :
          (o : Option Definition)
          → r.by_name (normalize_identifier i) ≡ o
          → (p : Option Text) → r.by_alias (normalize_identifier i) ≡ p
          → resolve_identifier i (register skill r).registry ≡ some d
      kept (some x) e p f = ground (
        arith,
        name_at (normalize_identifier i),
        added.fresh,
        eqt_iff own_name (normalize_identifier i),
      )
      kept none e none f = ground arith
      kept none e (some m) f = ground (
        arith,
        name_at (normalize_identifier i),
        name_at m,
        alias_kept (normalize_identifier i) m f,
        added.fresh,
        eqt_iff own_name (normalize_identifier i),
        eqt_iff own_name m,
        own_name_at normal,
      )

  skill_of :
      (n m : Text)
      → (r.by_alias n ≡ some m) ⊎ (m ≡ own_name)
      → (d : Definition) × ((register skill r).registry.by_name m ≡ some d)
  skill_of n m (inl h) =
      let (d, e) = aliased_of r n m sound h in
      (d, ground (arith, name_at m, eqt_iff own_name m, added.fresh, e))
  skill_of n m (inr e) = (skill, ground (arith, name_at m, eqt_iff own_name m, e))

  kept_name :
      normalize_identifier own_name ≡ own_name
      → (n : Text) (d : Definition) → (register skill r).registry.by_name n ≡ some d
      → (register skill r).registry.by_alias n ≡ some n
  kept_name normal n d h = cases (r.by_name n) refl
    where
      cases :
          (o : Option Definition)
          → r.by_name n ≡ o
          → (register skill r).registry.by_alias n ≡ some n
      cases none e = ground (arith, name_at n, eqt_iff own_name n, own_name_at normal, h, e)
      cases (some x) e = alias_kept n n (named_of r n x sound e)

  -- A registration that is accepted keeps a sound registry sound, if the name of the skill is normal.
  pub register-IsSound :
      normalize_identifier own_name ≡ own_name → IsSound (register skill r).registry
  register-IsSound normal = record {
    named = λ n. own_alias_of n ((register skill r).registry.by_name n) refl;
    aliased = λ n. leads_of n ((register skill r).registry.by_alias n) refl;
  }
    where
      own_alias_of :
          (n : Text) (o : Option Definition)
          → (register skill r).registry.by_name n ≡ o
          → OwnAlias o ((register skill r).registry.by_alias n) n
      own_alias_of n none h = unfold OwnAlias in tt
      own_alias_of n (some d) h = unfold OwnAlias in kept_name normal n d h

      leads_of :
          (n : Text) (o : Option Text)
          → (register skill r).registry.by_alias n ≡ o
          → Leads o (register skill r).registry
      leads_of n none h = unfold Leads in tt
      leads_of n (some m) h =
          unfold Leads in skill_of n m (loop_new ids own_name started n m (sym (alias_at n) ∙ h))
