-- ===== src/Db/Redis/Deps/Laws.antt =====
-- What each change of the nested maps does to their entries.
use goval_dictionary_v.Prelude.{
  ◌≡◌, Bool, true, not, ◌&&◌, ◌||◌, none, some, arith, inl, inr, Option-cases, if◌then◌else◌,
}
use goval_dictionary_v.Text.{Text, text_eq}
use goval_dictionary_v.Text.Equality.{text_eq_iff}
use goval_dictionary_v.GoMap.{Map, is_some, lookup, insert, delete, lookup-insert, lookup-delete}
use goval_dictionary_v.Db.Redis.Keys.{Kind, kind_key, same_kind, kind_key_eq}
use goval_dictionary_v.Db.Redis.Deps.{Deps, has, has_kind, present, add_dep, drop_dep}

-- The entry (id, kind, x) is the entry (j, k, y).
abbrev pub same_entry : Text → Kind → Text → Text → Kind → Text → Bool
same_entry id kind x j k y = text_eq id j && (same_kind kind k && text_eq x y)

pub has_kind-insert :
    (kind k : Kind) (y : Text) (s : Map (Unit {0})) (m : Map (Map (Unit {0})))
    → has_kind (some (insert (kind_key kind) s m)) k y
      ≡ (if same_kind kind k then is_some (lookup y s) else has_kind (some m) k y)
has_kind-insert kind k y s m =
    rw (lookup-insert (kind_key kind) (kind_key k) s m, kind_key_eq kind k) (ground arith)

pub kind_of_same : (kind k : Kind) → same_kind kind k ≡ true → kind ≡ k
kind_of_same kind k h = ground arith

module _ (id : Text) (kind : Kind) (x : Text) (d : Deps) where
  drop_dep_absent : lookup id d ≡ none → drop_dep id kind x d ≡ d
  unfolding drop_dep
  drop_dep_absent e = ground arith

  drop_dep_no_kind :
      (m : Map (Map (Unit {0})))
      → lookup id d ≡ some m
      → lookup (kind_key kind) m ≡ none
      → drop_dep id kind x d ≡ d
  unfolding drop_dep
  drop_dep_no_kind m e n = ground arith

  drop_dep_at :
      (m : Map (Map (Unit {0}))) (s : Map (Unit {0}))
      → lookup id d ≡ some m
      → lookup (kind_key kind) m ≡ some s
      → drop_dep id kind x d ≡ insert id (insert (kind_key kind) (delete x s) m) d
  unfolding drop_dep
  drop_dep_at m s e n = ground arith

  pub add_dep_at :
      (m : Map (Map (Unit {0}))) (s : Map (Unit {0}))
      → lookup id d ≡ some m
      → lookup (kind_key kind) m ≡ some s
      → add_dep id kind x d ≡ insert id (insert (kind_key kind) (insert x tt s) m) d
  unfolding add_dep
  add_dep_at m s e n = ground arith

module _ (id : Text) (kind : Kind) (x : Text) (d : Deps) (j : Text) (k : Kind) (y : Text) where
  pub has-drop :
      has (drop_dep id kind x d) j k y ≡ (has d j k y && not (same_entry id kind x j k y))
  has-drop = elim (Option-cases (lookup id d)) [
    | inl e ↦ rw (drop_dep_absent id kind x d e) (ground (arith, e, text_eq_iff id j))
    | inr (m, e) ↦ elim (Option-cases (lookup (kind_key kind) m)) [
      | inl n ↦
          rw (drop_dep_no_kind id kind x d m e n)
            (ground (arith, e, n, text_eq_iff id j, kind_of_same kind k))
      | inr (s, n) ↦
          rw
            (
              drop_dep_at id kind x d m s e n,
              lookup-insert id j (insert (kind_key kind) (delete x s) m) d,
            )
            (ground (
              arith,
              e,
              n,
              text_eq_iff id j,
              has_kind-insert kind k y (delete x s) m,
              lookup-delete x y s,
              kind_of_same kind k,
            ))
    ]
  ]

  pub has-add :
      (m : Map (Map (Unit {0}))) (s : Map (Unit {0}))
      → lookup id d ≡ some m
      → lookup (kind_key kind) m ≡ some s
      → has (add_dep id kind x d) j k y ≡ (same_entry id kind x j k y || has d j k y)
  has-add m s e n =
      rw
        (
          add_dep_at id kind x d m s e n,
          lookup-insert id j (insert (kind_key kind) (insert x tt s) m) d,
        )
        (ground (
          arith,
          e,
          n,
          text_eq_iff id j,
          has_kind-insert kind k y (insert x tt s) m,
          lookup-insert x y tt s,
          kind_of_same kind k,
        ))

  pub present-drop : present (drop_dep id kind x d) j ≡ present d j
  present-drop = elim (Option-cases (lookup id d)) [
    | inl e ↦ rw (drop_dep_absent id kind x d e)
    | inr (m, e) ↦ elim (Option-cases (lookup (kind_key kind) m)) [
      | inl n ↦ rw (drop_dep_no_kind id kind x d m e n)
      | inr (s, n) ↦
          rw
            (
              drop_dep_at id kind x d m s e n,
              lookup-insert id j (insert (kind_key kind) (delete x s) m) d,
            )
            (ground (arith, e, text_eq_iff id j))
    ]
  ]
