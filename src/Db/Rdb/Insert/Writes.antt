-- ===== src/Db/Rdb/Insert/Writes.antt =====
-- The statements that a successful InsertOval of db/rdb.go has run, one after the other.

use goval_dictionary_v.Prelude.{
  ℕ, ◌≡◌, refl, ap, sym, ◌∙◌, Option, none, some, List, [], ◌∷◌, ◌++◌, append_assoc, flat_map,
}
use goval_dictionary_v.Models.{Definition, Advisory, Package, Root}
use goval_dictionary_v.Db.Rdb.Gorm.{Gorm}
use goval_dictionary_v.Db.Rdb.Insert.{
  Attempt, done, returned, and_then, checking, with_definition_id,
}

-- A statement that writes. Those that create rows are with what gorm gives back: the id of the
-- root, and the definitions with theirs.
pub data Write : Type 0 where
  makes_root : Root → ℕ → Write
  makes_definitions : List Definition → List Definition → Write
  makes_packages : List Package → Write
  drops_advisories : List Advisory → Write
  drops_definitions : List Definition → Write
  drops_root : ℕ → Write

-- what a sequence of statements creates and deletes in all
pub record Tally : Type 0 where
  pub roots : List (Root × ℕ)
  pub asked : List Definition
  pub made : List Definition
  pub packages : List Package
  pub dropped : List Definition
  pub dropped_roots : List ℕ

abbrev pub nothing : Tally
nothing = record {
  roots = [];
  asked = [];
  made = [];
  packages = [];
  dropped = [];
  dropped_roots = [];
}

abbrev pub tally_of : Write → Tally
tally_of (makes_root r id) = record nothing { roots = (r, id) ∷ [] }
tally_of (makes_definitions ds es) = record nothing { asked = ds; made = es }
tally_of (makes_packages ps) = record nothing { packages = ps }
tally_of (drops_advisories advs) = nothing
tally_of (drops_definitions ds) = record nothing { dropped = ds }
tally_of (drops_root id) = record nothing { dropped_roots = id ∷ [] }

abbrev pub plus : Tally → Tally → Tally
plus a b = record {
  roots = a.roots ++ b.roots;
  asked = a.asked ++ b.asked;
  made = a.made ++ b.made;
  packages = a.packages ++ b.packages;
  dropped = a.dropped ++ b.dropped;
  dropped_roots = a.dropped_roots ++ b.dropped_roots;
}

abbrev pub tally : List Write → Tally
tally [] = nothing
tally (w ∷ ws) = plus (tally_of w) (tally ws)

plus_assoc : (a b c : Tally) → plus (plus a b) c ≡ plus a (plus b c)
plus_assoc a b c =
    rw
      (
        append_assoc a.roots b.roots c.roots,
        append_assoc a.asked b.asked c.asked,
        append_assoc a.made b.made c.made,
        append_assoc a.packages b.packages c.packages,
        append_assoc a.dropped b.dropped c.dropped,
        append_assoc a.dropped_roots b.dropped_roots c.dropped_roots,
      )
      refl

tally-append : (ws vs : List Write) → tally (ws ++ vs) ≡ plus (tally ws) (tally vs)
tally-append [] vs = refl
tally-append (w ∷ ws) vs =
    ap (plus (tally_of w)) (tally-append ws vs)
    ∙ sym (plus_assoc (tally_of w) (tally ws) (tally vs))

module _ (g : Gorm) where
  -- the statement succeeds and takes the transaction on
  abbrev pub Effect : Write → g.Tx → g.Tx → Type 0
  Effect (makes_root r id) t u = g.create_root r t ≡ some (id, u)
  Effect (makes_definitions ds es) t u = g.create_definitions ds t ≡ some (es, u)
  Effect (makes_packages ps) t u = g.create_packages ps t ≡ some u
  Effect (drops_advisories advs) t u = g.delete_advisories advs t ≡ some u
  Effect (drops_definitions ds) t u = g.delete_definitions ds t ≡ some u
  Effect (drops_root id) t u = g.delete_root id t ≡ some u

  abbrev pub Performed : List Write → g.Tx → g.Tx → Type 0
  Performed [] t u = t ≡ u
  Performed (w ∷ ws) t u = (t' : g.Tx) × Effect w t t' × Performed ws t' u

  Performed-append :
      (ws vs : List Write) (t u v : g.Tx)
      → Performed ws t u
      → Performed vs u v
      → Performed (ws ++ vs) t v
  Performed-append [] vs t u v p q = rw p q
  Performed-append (w ∷ ws) vs t u v (t', e, p) q = (t', e, Performed-append ws vs t' u v p q)

  -- a part that goes on has run statements that do so much
  abbrev pub Does : (Tally → Type 0) → g.Tx → Attempt g g.Tx → Type 0
  Does P t (done u) = (ws : List Write) × Performed ws t u × P (tally ws)
  Does P t (returned s) = Unit

  pub checking-Does :
      {A : Type 0} (P : Tally → Type 0) (t : g.Tx) (o : Option A) (k : A → Attempt g g.Tx)
      → ((a : A) → o ≡ some a → Does P t (k a))
      → Does P t (checking g t o k)
  unfolding checking
  checking-Does P t none k h = tt
  checking-Does P t (some a) k h = h a refl

  pub and_then-Does :
      (P Q R : Tally → Type 0) (t : g.Tx) (a : Attempt g g.Tx) (k : g.Tx → Attempt g g.Tx)
      → Does P t a
      → ((u : g.Tx) → Does Q u (k u))
      → ((x y : Tally) → P x → Q y → R (plus x y))
      → Does R t (and_then g a k)
  unfolding and_then
  and_then-Does P Q R t (returned s) k p q r = tt
  and_then-Does P Q R t (done u) k (ws, e, p) q r = after (k u) (q u)
    where
      after : (b : Attempt g g.Tx) → Does Q u b → Does R t b
      after (returned s) d = tt
      after (done v) (vs, f, d) = (
        ws ++ vs,
        Performed-append ws vs t u v e f,
        rw (tally-append ws vs) (r (tally ws) (tally vs) p d),
      )

  pub write-Does :
      (P Q : Tally → Type 0) (w : Write) (t t' : g.Tx) (a : Attempt g g.Tx)
      → Effect w t t'
      → Does P t' a
      → ((x : Tally) → P x → Q (plus (tally_of w) x))
      → Does Q t a
  write-Does P Q w t t' (returned s) e d h = tt
  write-Does P Q w t t' (done u) e (ws, p, x) h = (w ∷ ws, (t', e, p), h (tally ws) x)

  abbrev pub packages_of : List Definition → List Package
  packages_of = flat_map (with_definition_id g)

  abbrev pub Is : Tally → Tally → Type 0
  Is y x = x ≡ y
