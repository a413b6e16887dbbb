-- ===== src/Db/Redis/Insert/Entries.antt =====
-- What the loops over a definition's entries do to the queue and to the two maps.
use goval_dictionary_v.Prelude.{
  ◌≡◌, refl, ◌∙◌, Bool, true, false, not, ◌&&◌, ◌||◌, Option, List, [], ◌∷◌, ◌++◌, arith,
}
use goval_dictionary_v.Text.{Text, text_eq}
use goval_dictionary_v.GoMap.{elem}
use goval_dictionary_v.Db.Redis.Server.{Command, sadd, member_after, field_after}
use goval_dictionary_v.Db.Redis.Keys.{Kind, index_key, same_kind, index_key_eq, def_key}
use goval_dictionary_v.Db.Redis.Deps.{has, present}
use goval_dictionary_v.Db.Redis.Deps.Laws.{same_entry, has-drop, present-drop}
use goval_dictionary_v.Db.Redis.Deps.Complete.{
  IsComplete, has-add_complete, present-add, add-IsComplete,
}
use goval_dictionary_v.Db.Redis.Insert.{Progress, add_entry, add_entries}
use goval_dictionary_v.Db.Redis.Insert.Spec.{member_after_all, field_after_all}

pub member_after_all-append :
    (cs ds : List Command) (k m : Text) (b : Bool)
    → member_after_all (cs ++ ds) k m b ≡ member_after_all ds k m (member_after_all cs k m b)
member_after_all-append [] ds k m b = refl
member_after_all-append (c ∷ cs) ds k m b = member_after_all-append cs ds k m (member_after c k m b)

pub field_after_all-append :
    (cs ds : List Command) (k f : Text) (o : Option Text)
    → field_after_all (cs ++ ds) k f o ≡ field_after_all ds k f (field_after_all cs k f o)
field_after_all-append [] ds k f o = refl
field_after_all-append (c ∷ cs) ds k f o = field_after_all-append cs ds k f (field_after c k f o)

-- From `p` to `q` exactly the entries of `cov` were queued, recorded in newDeps, and taken off
-- oldDeps.
pub record Adds (family os_ver : Text) (cov : Text → Kind → Text → Bool) (p q : Progress)
    : Type 0 where
  pub complete : IsComplete q.new_deps
  pub new :
      (j : Text) (k : Kind) (y : Text) → has q.new_deps j k y ≡ (cov j k y || has p.new_deps j k y)
  pub old :
      (j : Text) (k : Kind) (y : Text)
      → has q.old_deps j k y ≡ (has p.old_deps j k y && not (cov j k y))
  pub index :
      (j : Text) (k : Kind) (y : Text) (b : Bool)
      → member_after_all q.commands (index_key family os_ver k y) j b
        ≡ (cov j k y || member_after_all p.commands (index_key family os_ver k y) j b)

-- From `p` to `q` the definitions of `ids` were recorded, no other was taken off oldDeps, and
-- `write` happened to the hash of definitions.
pub record Holds (family os_ver : Text) (ids : Text → Bool)
    (write : Text → Option Text → Option Text) (p q : Progress) : Type 0 where
  pub new : (j : Text) → present q.new_deps j ≡ (ids j || present p.new_deps j)
  pub old : (j : Text) → ids j ≡ false → present q.old_deps j ≡ present p.old_deps j
  pub fields :
      (j : Text) (o : Option Text)
      → field_after_all q.commands (def_key family os_ver) j o
        ≡ write j (field_after_all p.commands (def_key family os_ver) j o)

abbrev pub entries : Text → Kind → List Text → Text → Kind → Text → Bool
entries id kind xs j k y = text_eq id j && (same_kind kind k && elem y xs)

module _ (family os_ver : Text) where
  pub Adds-trans :
      (c d : Text → Kind → Text → Bool) (p q r : Progress)
      → Adds family os_ver c p q
      → Adds family os_ver d q r
      → Adds family os_ver (λ j k y. c j k y || d j k y) p r
  Adds-trans c d p q r a b = record {
    complete = b.complete;
    new = λ j k y. ground (arith, a.new j k y, b.new j k y);
    old = λ j k y. ground (arith, a.old j k y, b.old j k y);
    index = λ j k y t. ground (arith, a.index j k y t, b.index j k y t);
  }

  pub Adds-ext :
      (c d : Text → Kind → Text → Bool) (p q : Progress)
      → ((j : Text) (k : Kind) (y : Text) → c j k y ≡ d j k y)
      → Adds family os_ver c p q
      → Adds family os_ver d p q
  Adds-ext c d p q e a = record {
    complete = a.complete;
    new = λ j k y. ground (arith, a.new j k y, e j k y);
    old = λ j k y. ground (arith, a.old j k y, e j k y);
    index = λ j k y t. ground (arith, a.index j k y t, e j k y);
  }

  module _ (id : Text) (kind : Kind) where
    add_entry-Adds :
        (x : Text) (p : Progress)
        → IsComplete p.new_deps
        → present p.new_deps id ≡ true
        → Adds family os_ver
            (λ j k y. same_entry id kind x j k y)
            p
            (add_entry family os_ver id kind x p)
    unfolding add_entry
    add_entry-Adds x p c there = record {
      complete = add-IsComplete id kind x p.new_deps c there;
      new = λ j k y. has-add_complete id kind x p.new_deps c there j k y;
      old = λ j k y. has-drop id kind x p.old_deps j k y;
      index = λ j k y b.
          rw
            (
              member_after_all-append p.commands (sadd (index_key family os_ver kind x) id ∷ [])
                  (index_key family os_ver k y) j b,
              index_key_eq family os_ver kind k x y,
            )
            (ground arith);
    }

    add_entry-Holds :
        (x : Text) (p : Progress)
        → IsComplete p.new_deps
        → present p.new_deps id ≡ true
        → Holds family os_ver (λ j. false) (λ j o. o) p (add_entry family os_ver id kind x p)
    unfolding add_entry
    add_entry-Holds x p c there = record {
      new = λ j. present-add id kind x p.new_deps c there j;
      old = λ j _. present-drop id kind x p.old_deps j kind x;
      fields = λ j o.
          field_after_all-append p.commands (sadd (index_key family os_ver kind x) id ∷ [])
            (def_key family os_ver) j o;
    }

    add_entry-present :
        (x : Text) (p : Progress)
        → IsComplete p.new_deps
        → present p.new_deps id ≡ true
        → present (add_entry family os_ver id kind x p).new_deps id ≡ true
    add_entry-present x p c there = (add_entry-Holds x p c there).new id ∙ there

    pub add_entries-Adds :
        (xs : List Text) (p : Progress)
        → IsComplete p.new_deps
        → present p.new_deps id ≡ true
        → Adds family os_ver (entries id kind xs) p (add_entries family os_ver id kind xs p)
    unfolding add_entries elem
    add_entries-Adds [] p c there = record {
      complete = c;
      new = λ j k y. ground arith;
      old = λ j k y. ground arith;
      index = λ j k y b. ground arith;
    }
    add_entries-Adds (x ∷ xs) p c there =
        let q = add_entry family os_ver id kind x p in
        let a = add_entry-Adds x p c there in
        let rest = add_entries-Adds xs q a.complete (add_entry-present x p c there) in
        Adds-ext (λ j k y. same_entry id kind x j k y || entries id kind xs j k y)
          (entries id kind (x ∷ xs)) p (add_entries family os_ver id kind xs q)
          (λ j k y. ground arith)
          (Adds-trans (same_entry id kind x) (entries id kind xs) p q
            (add_entries family os_ver id kind xs q) a rest)

    pub add_entries-Holds :
        (xs : List Text) (p : Progress)
        → IsComplete p.new_deps
        → present p.new_deps id ≡ true
        → Holds family os_ver (λ j. false) (λ j o. o) p (add_entries family os_ver id kind xs p)
    unfolding add_entries
    add_entries-Holds [] p c there = record {
      new = λ j. refl;
      old = λ j _. refl;
      fields = λ j o. refl;
    }
    add_entries-Holds (x ∷ xs) p c there =
        let q = add_entry family os_ver id kind x p in
        let h = add_entry-Holds x p c there in
        let rest =
          add_entries-Holds xs q (add_entry-Adds x p c there).complete
            (add_entry-present x p c there) in
        record {
          new = λ j. rest.new j ∙ h.new j;
          old = λ j e. rest.old j e ∙ h.old j e;
          fields = λ j o. rest.fields j o ∙ h.fields j o;
        }
