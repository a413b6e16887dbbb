-- ===== src/Db/Redis/Insert/Definitions.antt =====
-- What the loop over the definitions of a chunk does.
use goval_dictionary_v.Prelude.{
  ◌≡◌, refl, sym, subst, ◌∙◌, Bool, true, false, ◌&&◌, ◌||◌, Option, some, List, [], ◌∷◌, map,
  arith, if◌then◌else◌,
}
use goval_dictionary_v.Text.{Text, text_eq}
use goval_dictionary_v.Text.Equality.{text_eq_refl}
use goval_dictionary_v.GoMap.{elem}
use goval_dictionary_v.Outcome.{ok}
use goval_dictionary_v.Models.{Definition}
use goval_dictionary_v.Db.Redis.Server.{hset, Codec}
use goval_dictionary_v.Db.Redis.Keys.{Kind, cves, packages, index_key, def_key}
use goval_dictionary_v.Db.Redis.Deps.{present, prune_deps}
use goval_dictionary_v.Db.Redis.Deps.Prune.{has-prune, present-prune}
use goval_dictionary_v.Db.Redis.Deps.Complete.{IsComplete, present-open, has-open, open-IsComplete}
use goval_dictionary_v.Db.Redis.Insert.{
  Progress, add_entries, open_definition, add_definition, add_definitions, package_name,
}
use goval_dictionary_v.Db.Redis.Insert.Spec.{indexed, covers, has_id, stored}
use goval_dictionary_v.Db.Redis.Insert.Entries.{
  Adds, Holds, Adds-trans, Adds-ext, entries, add_entries-Adds, add_entries-Holds,
  member_after_all-append, field_after_all-append,
}

module _ (family os_ver : Text) where
  module _ (id dj : Text) (p : Progress) (c : IsComplete p.new_deps) where
    open-Adds : Adds family os_ver (λ j k y. false) p (open_definition family os_ver id dj p)
    unfolding open_definition
    open-Adds = record {
      complete = open-IsComplete id p.new_deps c;
      new = λ j k y. has-open id p.new_deps j k y;
      old = λ j k y. ground arith;
      index = λ j k y b.
          member_after_all-append p.commands (hset (def_key family os_ver) id dj ∷ [])
            (index_key family os_ver k y) j b;
    }

    open-Holds :
        Holds family os_ver
          (λ j. text_eq id j)
          (λ j o. if text_eq id j then some dj else o)
          p
          (open_definition family os_ver id dj p)
    unfolding open_definition
    open-Holds = record {
      new = λ j. present-open id p.new_deps j;
      old = λ j _. refl;
      fields = λ j o.
          rw
            (
              field_after_all-append p.commands (hset (def_key family os_ver) id dj ∷ [])
                  (def_key family os_ver) j o,
              text_eq_refl (def_key family os_ver),
            )
            refl;
    }

  abbrev with_id : Text → Text → Option Text → Option Text → Option Text
  with_id id j new o = if text_eq id j then new else o

  module _ (id dj : Text) (vs ps : List Text) (p : Progress) (c : IsComplete p.new_deps) where
    opened : Progress
    opened = open_definition family os_ver id dj p

    with_cves : Progress
    with_cves = add_entries family os_ver id cves vs opened

    with_packs : Progress
    unfolding with_cves opened
    with_packs = add_entries family os_ver id packages ps with_cves

    there : present opened.new_deps id ≡ true
    unfolding opened
    there = (open-Holds id dj p c).new id ∙ ground (arith, text_eq_refl id)

    cves-Adds : Adds family os_ver (entries id cves vs) opened with_cves
    unfolding opened with_cves
    cves-Adds =
        add_entries-Adds family os_ver id cves vs opened (open-Adds id dj p c).complete there

    cves-Holds : Holds family os_ver (λ j. false) (λ j o. o) opened with_cves
    unfolding opened with_cves
    cves-Holds =
        add_entries-Holds family os_ver id cves vs opened (open-Adds id dj p c).complete there

    packs-Adds : Adds family os_ver (entries id packages ps) with_cves with_packs
    unfolding with_packs
    packs-Adds =
        add_entries-Adds family os_ver id packages ps with_cves cves-Adds.complete
          (cves-Holds.new id ∙ there)

    packs-Holds : Holds family os_ver (λ j. false) (λ j o. o) with_cves with_packs
    unfolding with_packs
    packs-Holds =
        add_entries-Holds family os_ver id packages ps with_cves cves-Adds.complete
          (cves-Holds.new id ∙ there)

    pruned : Progress
    pruned = record with_packs { old_deps = prune_deps id with_packs.old_deps }

    all-Adds :
        Adds family os_ver
          (λ j k y. (false || entries id cves vs j k y) || entries id packages ps j k y)
          p
          with_packs
    all-Adds =
        Adds-trans family os_ver (λ j k y. false || entries id cves vs j k y)
          (entries id packages ps) p with_cves with_packs
          (Adds-trans family os_ver (λ j k y. false) (entries id cves vs) p opened with_cves
            (unfold opened in open-Adds id dj p c) cves-Adds)
          packs-Adds

    pruned-Adds :
        Adds family os_ver
          (λ j k y. (false || entries id cves vs j k y) || entries id packages ps j k y)
          p
          pruned
    unfolding pruned
    pruned-Adds = record {
      complete = all-Adds.complete;
      new = all-Adds.new;
      old = λ j k y. has-prune id with_packs.old_deps j k y ∙ all-Adds.old j k y;
      index = all-Adds.index;
    }

    pruned-Holds :
        Holds family os_ver (λ j. text_eq id j) (λ j o. with_id id j (some dj) o) p pruned
    unfolding pruned
    pruned-Holds =
        let h = open-Holds id dj p c in
        record {
          new = λ j. packs-Holds.new j ∙ cves-Holds.new j ∙ (unfold opened in h.new j);
          old = λ j e.
              present-prune id with_packs.old_deps j e
              ∙ packs-Holds.old j refl
              ∙ cves-Holds.old j refl
              ∙ (unfold opened in h.old j e);
          fields = λ j o.
              packs-Holds.fields j o ∙ cves-Holds.fields j o ∙ (unfold opened in h.fields j o);
        }

  abbrev of_definition : Definition → Text → Kind → Text → Bool
  of_definition d j k y = text_eq d.definition_id j && elem y (indexed family d k)

  of_definition_cases :
      (d : Definition) (j : Text) (k : Kind) (y : Text)
      → ((false || entries d.definition_id cves (map (λ v. v.cve_id) d.advisory.cves) j k y)
          || entries d.definition_id packages (map (package_name family) d.affected_packs) j k y)
        ≡ of_definition d j k y
  of_definition_cases d j cves y = ground arith
  of_definition_cases d j packages y = ground arith

  module _ (dj : Text) (d : Definition) (p : Progress) (c : IsComplete p.new_deps) where
    pub definition-Adds :
        Adds family os_ver (of_definition d) p (add_definition family os_ver dj d p)
    unfolding add_definition pruned with_packs
    definition-Adds =
        Adds-ext family os_ver
          (λ j k y.
            (false || entries d.definition_id cves (map (λ v. v.cve_id) d.advisory.cves) j k y)
            || entries d.definition_id packages (map (package_name family) d.affected_packs) j k y)
          (of_definition d) p (add_definition family os_ver dj d p) (of_definition_cases d)
          (pruned-Adds d.definition_id dj (map (λ v. v.cve_id) d.advisory.cves)
            (map (package_name family) d.affected_packs) p c)

    pub definition-Holds :
        Holds family os_ver
          (λ j. text_eq d.definition_id j)
          (λ j o. with_id d.definition_id j (some dj) o)
          p
          (add_definition family os_ver dj d p)
    unfolding add_definition pruned with_packs
    definition-Holds =
        pruned-Holds d.definition_id dj (map (λ v. v.cve_id) d.advisory.cves)
          (map (package_name family) d.affected_packs) p c

  module _ (codec : Codec) where
    add_definitions-some :
        (d : Definition) (ds : List Definition) (p : Progress) (dj : Text)
        → codec.marshal d ≡ some dj
        → add_definitions family os_ver codec (d ∷ ds) p
          ≡ add_definitions family os_ver codec ds (add_definition family os_ver dj d p)
    unfolding add_definitions
    add_definitions-some d ds p dj e = ground arith

    marshalled :
        (d : Definition) (ds : List Definition) (p q : Progress)
        → add_definitions family os_ver codec (d ∷ ds) p ≡ ok q
        → (dj : Text) × (codec.marshal d ≡ some dj)
    unfolding add_definitions
    marshalled d ds p q h = ground arith

    pub add_definitions-Adds :
        (ds : List Definition) (p q : Progress)
        → add_definitions family os_ver codec ds p ≡ ok q
        → IsComplete p.new_deps
        → Adds family os_ver (covers family ds) p q
    add_definitions-Adds [] p q h c =
        let e : p ≡ q = unfold add_definitions in cc in
        subst (λ r. Adds family os_ver (λ j k y. false) p r) e
          (record {
            complete = c;
            new = λ j k y. refl;
            old = λ j k y. ground arith;
            index = λ j k y b. refl;
          })
    add_definitions-Adds (d ∷ ds) p q h c =
        let (dj, e) = marshalled d ds p q h in
        let r = add_definition family os_ver dj d p in
        let a = definition-Adds dj d p c in
        Adds-trans family os_ver (of_definition d) (covers family ds) p r q a
          (add_definitions-Adds ds r q (sym (add_definitions-some d ds p dj e) ∙ h) a.complete)

    pub add_definitions-Holds :
        (ds : List Definition) (p q : Progress)
        → add_definitions family os_ver codec ds p ≡ ok q
        → IsComplete p.new_deps
        → Holds family os_ver (has_id ds) (stored codec ds) p q
    add_definitions-Holds [] p q h c =
        let e : p ≡ q = unfold add_definitions in cc in
        subst (λ r. Holds family os_ver (λ j. false) (λ j o. o) p r) e
          (record { new = λ j. refl; old = λ j _. refl; fields = λ j o. refl })
    add_definitions-Holds (d ∷ ds) p q h c =
        let (dj, e) = marshalled d ds p q h in
        let r = add_definition family os_ver dj d p in
        let a = definition-Holds dj d p c in
        let rest =
          add_definitions-Holds ds r q (sym (add_definitions-some d ds p dj e) ∙ h)
            (definition-Adds dj d p c).complete in
        record {
          new = λ j. ground (arith, rest.new j, a.new j);
          old = λ j n. ground (arith, rest.old j, a.old j, n);
          fields = λ j o. rw (rest.fields j o, a.fields j o, e);
        }
