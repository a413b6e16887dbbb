-- ===== src/Tests/Memory.antt =====
-- A server in memory: the list of the commands that it has run, the last one first.
use goval_dictionary_v.Prelude.{
  ◌||◌, length, length, ◌≡◌, refl, sym, Bool, true, false, ◌&&◌, Option, none, some, List, [], ◌∷◌,
  map, arith, inl, inr, Bool-cases, if◌then◌else◌,
}
use goval_dictionary_v.Text.{Text, text_eq}
use goval_dictionary_v.Text.Equality.{eq_of_text_eq}
use goval_dictionary_v.GoMap.{elem, is_some}
use goval_dictionary_v.Db.Redis.Server.{
  Command, hset, sadd, srem, hdel, set, member_after, field_after, string_after, Server,
}

abbrev pub member_of : List Command → Text → Text → Bool
member_of [] k m = false
member_of (c ∷ cs) k m = member_after c k m (member_of cs k m)

abbrev pub field_of : List Command → Text → Text → Option Text
field_of [] k f = none
field_of (c ∷ cs) k f = field_after c k f (field_of cs k f)

abbrev pub string_of : List Command → Text → Option Text
string_of [] k = none
string_of (c ∷ cs) k = string_after c k (string_of cs k)

-- Everything that was ever added to a set.
abbrev pub candidates : List Command → List Text
candidates [] = []
candidates (sadd key m ∷ cs) = m ∷ candidates cs
candidates (hset key f v ∷ cs) = candidates cs
candidates (srem key m ∷ cs) = candidates cs
candidates (hdel key f ∷ cs) = candidates cs
candidates (set key v ∷ cs) = candidates cs

abbrev pub keep : (Text → Bool) → List Text → List Text
keep test [] = []
keep test (m ∷ ms) = if test m then m ∷ keep test ms else keep test ms

elem-keep :
    (test : Text → Bool) (ms : List Text) (m : Text) → elem m (keep test ms) ≡ (elem m ms && test m)
unfolding elem
elem-keep test [] m = refl
elem-keep test (n ∷ ms) m = elim (Bool-cases (text_eq n m)) [
  | inl y ↦ ground (arith, y, eq_of_text_eq n m y, elem-keep test ms m)
  | inr x ↦ ground (arith, x, elem-keep test ms m)
]

member-candidates :
    (cs : List Command) (k m : Text) → member_of cs k m ≡ true → elem m (candidates cs) ≡ true
unfolding elem
member-candidates [] k m h = cc
member-candidates (hset key f v ∷ cs) k m h = member-candidates cs k m h
member-candidates (sadd key n ∷ cs) k m h = ground (arith, member-candidates cs k m)
member-candidates (srem key n ∷ cs) k m h = ground (arith, member-candidates cs k m)
member-candidates (hdel key f ∷ cs) k m h = member-candidates cs k m h
member-candidates (set key v ∷ cs) k m h = ground (arith, member-candidates cs k m)

abbrev pub members_of : List Command → Text → List Text
members_of cs k = keep (λ m. member_of cs k m) (candidates cs)

pub members_of-member :
    (cs : List Command) (k m : Text) → elem m (members_of cs k) ≡ member_of cs k m
members_of-member cs k m =
    ground (arith, elem-keep (λ n. member_of cs k n) (candidates cs) m, member-candidates cs k m)

pub some-inj {ℓ} : {A : Type ℓ} {a b : A} → some a ≡ some b → a ≡ b
some-inj h = cc

-- Every field that was ever set.
abbrev pub fields_set : List Command → List Text
fields_set [] = []
fields_set (hset key f v ∷ cs) = f ∷ fields_set cs
fields_set (sadd key m ∷ cs) = fields_set cs
fields_set (srem key m ∷ cs) = fields_set cs
fields_set (hdel key f ∷ cs) = fields_set cs
fields_set (set key v ∷ cs) = fields_set cs

abbrev pub any_of : (Text → Bool) → List Text → Bool
any_of test [] = false
any_of test (m ∷ ms) = test m || any_of test ms

any_of-elem :
    (test : Text → Bool) (ms : List Text) (m : Text)
    → elem m ms ≡ true
    → test m ≡ true
    → any_of test ms ≡ true
unfolding elem
any_of-elem test [] m e t = cc
any_of-elem test (n ∷ ms) m e t = elim (Bool-cases (text_eq n m)) [
  | inl y ↦ ground (arith, y, eq_of_text_eq n m y, t)
  | inr x ↦ ground (arith, x, e, any_of-elem test ms m)
]

field-fields_set :
    (cs : List Command) (k f : Text)
    → is_some (field_of cs k f) ≡ true
    → elem f (fields_set cs) ≡ true
unfolding elem
field-fields_set [] k f h = cc
field-fields_set (hset key g v ∷ cs) k f h = ground (arith, field-fields_set cs k f)
field-fields_set (sadd key m ∷ cs) k f h = field-fields_set cs k f h
field-fields_set (srem key m ∷ cs) k f h = field-fields_set cs k f h
field-fields_set (hdel key g ∷ cs) k f h = ground (arith, field-fields_set cs k f)
field-fields_set (set key v ∷ cs) k f h = ground (arith, field-fields_set cs k f)

abbrev pub has_key : List Command → Text → Bool
has_key cs k =
    any_of (λ f. is_some (field_of cs k f)) (fields_set cs)
    || (any_of (λ m. member_of cs k m) (candidates cs) || is_some (string_of cs k))

pub has_key-field :
    (cs : List Command) (k f v : Text) (b : Bool)
    → some (has_key cs k) ≡ some b
    → field_of cs k f ≡ some v
    → b ≡ true
has_key-field cs k f v b e h =
    let present : is_some (field_of cs k f) ≡ true = rw h refl in
    ground (
      arith,
      e,
      any_of-elem (λ g. is_some (field_of cs k g)) (fields_set cs) f
          (field-fields_set cs k f present) present,
    )

abbrev pub memory : Server
memory = record {
  State = List Command;
  run = λ s c. (c ∷ s, true);
  member = member_of;
  field = field_of;
  string = string_of;
  smembers = λ s k. some (members_of s k);
  hmget = λ s k fs. some (map (field_of s k) fs);
  get = λ s k. some (string_of s k);
  dbsize = λ s. some 0;
  hlen = λ s k. some (length (keep (λ f. is_some (field_of s k f)) (fields_set s)));
  exists = λ s k. some (has_key s k);
  hget = λ s k f. some (field_of s k f);
  hget-field = λ s k f o h. sym (some-inj h);
  exists-field = has_key-field;
  scan = λ s cursor pattern count. some ([], 0);
  run-member = λ s c h k m. refl;
  run-field = λ s c h k f. refl;
  run-string = λ s c h k. refl;
  smembers-member = λ s k ms h m. (rw (sym (some-inj h)) (members_of-member s k m));
  hmget-field = λ s k fs vs h. sym (some-inj h);
  get-string = λ s k o h. sym (some-inj h);
}
