-- ===== src/Tests/Encoding.antt =====
-- An encoding of DEP: a byte of a text is moved up by three, and 0, 1 and 2 stand before the keys
-- of the three levels. It is read from its end, with the text and the maps that are still open.
use goval_dictionary_v.Prelude.{
  ℕ, zero, suc, ◌≡◌, refl, ap, sym, ◌∙◌, Option, none, some, [], ◌∷◌, ◌++◌, append-nil,
}
use goval_dictionary_v.Text.{Text}
use goval_dictionary_v.GoMap.{Map}
use goval_dictionary_v.Db.Redis.Deps.{Deps, SameDeps, has, present}

pub record Open : Type 0 where
  pub key : Text
  pub entries : Map (Unit {0})
  pub kinds : Map (Map (Unit {0}))
  pub deps : Deps

abbrev pub close_entry : Open → Open
close_entry o = record o { key = []; entries = (o.key, tt) ∷ o.entries }

abbrev pub close_kind : Open → Open
close_kind o = record o { key = []; entries = []; kinds = (o.key, o.entries) ∷ o.kinds }

abbrev pub close_id : Open → Open
close_id o = record o { key = []; kinds = []; deps = (o.key, o.kinds) ∷ o.deps }

abbrev pub spell : ℕ → Open → Open
spell zero o = close_entry o
spell (suc zero) o = close_kind o
spell (suc (suc zero)) o = close_id o
spell (suc (suc (suc c))) o = record o { key = c ∷ o.key }

abbrev pub decode : Text → Open
decode [] = record { key = []; entries = []; kinds = []; deps = [] }
decode (c ∷ t) = spell c (decode t)

abbrev pub raise : Text → Text → Text
raise [] rest = rest
raise (c ∷ s) rest = suc (suc (suc c)) ∷ raise s rest

abbrev pub put_entries : Map (Unit {0}) → Text → Text
put_entries [] rest = rest
put_entries ((x, u) ∷ m) rest = 0 ∷ raise x (put_entries m rest)

abbrev pub put_kinds : Map (Map (Unit {0})) → Text → Text
put_kinds [] rest = rest
put_kinds ((k, s) ∷ m) rest = 1 ∷ raise k (put_entries s (put_kinds m rest))

abbrev pub put_deps : Deps → Text
put_deps [] = []
put_deps ((id, m) ∷ d) = 2 ∷ raise id (put_kinds m (put_deps d))

decode-raise :
    (s rest : Text) → decode (raise s rest) ≡ record (decode rest) { key = s ++ (decode rest).key }
decode-raise [] rest = refl
decode-raise (c ∷ s) rest = ap (λ (o : Open). record o { key = c ∷ o.key }) (decode-raise s rest)

-- a key before something that leaves no key open
decode-key :
    (s rest : Text) (o : Open)
    → decode rest ≡ record o { key = [] }
    → decode (raise s rest) ≡ record o { key = s }
decode-key s rest o h =
    decode-raise s rest
    ∙ ap (λ (q : Open). record q { key = s ++ q.key }) h
    ∙ ap (λ k. record o { key = k }) (append-nil s)

decode-entries :
    (m : Map (Unit {0})) (rest : Text) (o : Open)
    → decode rest ≡ record o { key = [] }
    → decode (put_entries m rest) ≡ record o { key = []; entries = m ++ o.entries }
decode-entries [] rest o h = h
decode-entries ((x, u) ∷ m) rest o h = ap close_entry (
    decode-key x (put_entries m rest) (record o { entries = m ++ o.entries })
      (decode-entries m rest o h))

decode-kinds :
    (m : Map (Map (Unit {0}))) (rest : Text) (d : Deps)
    → decode rest ≡ record { key = []; entries = []; kinds = []; deps = d }
    → decode (put_kinds m rest) ≡ record { key = []; entries = []; kinds = m; deps = d }
decode-kinds [] rest d h = h
decode-kinds ((k, s) ∷ m) rest d h =
    let o : Open = record { key = []; entries = []; kinds = m; deps = d } in
    ap close_kind (
      decode-key k (put_entries s (put_kinds m rest)) (record o { entries = s ++ [] })
        (decode-entries s (put_kinds m rest) o (decode-kinds m rest d h)))
    ∙ ap (λ (t : Map (Unit {0})). record { key = []; entries = []; kinds = (k, t) ∷ m; deps = d })
        (append-nil s)

decode-deps :
    (d : Deps) → decode (put_deps d) ≡ record { key = []; entries = []; kinds = []; deps = d }
decode-deps [] = refl
decode-deps ((id, m) ∷ d) = ap close_id (
    decode-key id (put_kinds m (put_deps d))
      (record { key = []; entries = []; kinds = m; deps = d })
      (decode-kinds m (put_deps d) d (decode-deps d)))

pub decode-put_deps : (d : Deps) (t : Text) → some (put_deps d) ≡ some t → (decode t).deps ≡ d
decode-put_deps d t h =
    ap (λ (o : Option Text). (decode (elim o [ none ↦ [] | some u ↦ u ])).deps) (sym h)
    ∙ ap (λ (o : Open). o.deps) (decode-deps d)

pub SameDeps-eq : (d e : Deps) → d ≡ e → SameDeps d e
SameDeps-eq d e h = ((λ id. ap (λ x. present x id) h), (λ id kind x. ap (λ y. has y id kind x) h))
