-- ===== src/Fetcher/Feeds/Outcomes.antt =====
-- What FetchFeedFiles returns.
use mathlib.Core.List.{Mem, Perm}
use mathlib.Core.List.Perm
use goval_dictionary_v.Prelude.{
  ◌≡◌, refl, sym, subst, ap, ◌∙◌, Option, none, some, List, [], ◌∷◌, ◌++◌, append-nil, map, All,
  length, arith,
}
use goval_dictionary_v.Text.{Text}
use goval_dictionary_v.Outcome.{Error}
use goval_dictionary_v.Fetcher.Util.{FetchRequest}
use goval_dictionary_v.Fetcher.Feeds.{
  Worker, fetching, assigned, passed, refused, through, Workers, new_result, tested, Step, assign,
  test, send_result, send_error, Reaches, here, onward, started, combined, collected,
}
use goval_dictionary_v.Fetcher.Feeds.Laws.{
  pending, result_for, Raised, Consistent, Step-Consistent, started-Consistent,
}

-- the worker has sent its message
abbrev pub IsThrough : Worker → Type 0
IsThrough (fetching req) = ⊥
IsThrough (assigned req body) = ⊥
IsThrough (passed req body) = ⊥
IsThrough (refused req) = ⊥
IsThrough through = Unit

pending-IsThrough : (ws : List Worker) → All IsThrough ws → pending ws ≡ []
pending-IsThrough [] h = refl
pending-IsThrough (fetching req ∷ ws) h = elim h.0 [ ]
pending-IsThrough (assigned req body ∷ ws) h = elim h.0 [ ]
pending-IsThrough (passed req body ∷ ws) h = elim h.0 [ ]
pending-IsThrough (refused req ∷ ws) h = elim h.0 [ ]
pending-IsThrough (through ∷ ws) h = pending-IsThrough ws h.1

-- the worker has not seen an error
abbrev IsUnhurt : Worker → Type 0
IsUnhurt (fetching req) = Unit
IsUnhurt (assigned req body) = Unit
IsUnhurt (passed req body) = Unit
IsUnhurt (refused req) = ⊥
IsUnhurt through = Unit

none_of_length :
    {A B : Type 0} (xs : List A) (ys : List B) → length xs ≡ length ys → xs ≡ [] → ys ≡ []
none_of_length [] [] e h = refl
none_of_length [] (y ∷ ys) e h = absurd (omega arith)
none_of_length (x ∷ xs) ys e h = let k : ⊥ = cc in elim k [ ]

module _ (fetch : FetchRequest → Text × Option Error) (reqs : List FetchRequest)
    (works : (r : FetchRequest) → Mem r reqs → (fetch r).1 ≡ none) where
  Raised-none : (o : Option Error) → Raised fetch reqs o → o ≡ none
  Raised-none none h = refl
  Raised-none (some e) (r, m, h) = let k : none ≡ some e = sym (works r m) ∙ h in cc

  abbrev Quiet : Workers → Type 0
  Quiet s = All IsUnhurt s.workers × (s.err_chan ≡ [])

  replaced :
      (before after : List Worker) (w w' : Worker)
      → IsUnhurt w'
      → All IsUnhurt (before ++ (w ∷ after))
      → All IsUnhurt (before ++ (w' ∷ after))
  replaced [] after w w' h m = (h, m.1)
  replaced (v ∷ before) after w w' h m = (m.0, replaced before after w w' h m.1)

  unhurt :
      (before after : List Worker) (w : Worker) → All IsUnhurt (before ++ (w ∷ after)) → IsUnhurt w
  unhurt [] after w m = m.0
  unhurt (v ∷ before) after w m = unhurt before after w m.1

  tested-IsUnhurt :
      (o : Option Error) (req : FetchRequest) (body : Text)
      → o ≡ none
      → IsUnhurt (tested o req body)
  unfolding tested
  tested-IsUnhurt none req body h = tt
  tested-IsUnhurt (some e) req body h = cc

  Step-Quiet : (s t : Workers) → Step fetch s t → Consistent fetch reqs s → Quiet s → Quiet t
  Step-Quiet s t (assign before after shared res errs req) c q =
      (replaced before after (fetching req) (assigned req (fetch req).0) tt q.0, q.1)
  Step-Quiet s t (test before after shared res errs req body) c q = (
    replaced before after (assigned req body) (tested shared req body)
        (tested-IsUnhurt shared req body (Raised-none shared c.shared_raised)) q.0,
    q.1,
  )
  Step-Quiet s t (send_result before after shared res errs req body) c q =
      (replaced before after (passed req body) through tt q.0, q.1)
  Step-Quiet s t (send_error before after shared res errs req) c q =
      elim (unhurt before after (refused req) q.0) [ ]

  Reaches-Quiet :
      (s t : Workers)
      → Reaches fetch s t
      → Consistent fetch reqs s
      → Quiet s
      → Consistent fetch reqs t × Quiet t
  Reaches-Quiet s t (here _) c q = (c, q)
  Reaches-Quiet s t (onward _ u _ step more) c q =
      Reaches-Quiet u t more (Step-Consistent fetch reqs s u step c) (Step-Quiet s u step c q)

  fetching-IsUnhurt : (rs : List FetchRequest) → All IsUnhurt (map fetching rs)
  fetching-IsUnhurt [] = tt
  fetching-IsUnhurt (r ∷ rs) = (tt, fetching-IsUnhurt rs)

  started-Quiet : Quiet (started reqs)
  unfolding started
  started-Quiet = (fetching-IsUnhurt reqs, refl)

  -- Where none of the downloads ends with an error, FetchFeedFiles returns the file of each request
  -- once, in the order in which they arrive, and no error, whatever the order of the steps of its
  -- workers.
  pub Reaches-collected :
      (s : Workers)
      → Reaches fetch (started reqs) s
      → All IsThrough s.workers
      → Perm (collected s).0 (map (result_for fetch) reqs) × ((collected s).1 ≡ none)
  unfolding collected
  Reaches-collected s path k =
      let (c, q) =
        Reaches-Quiet (started reqs) s path (started-Consistent fetch reqs) started-Quiet in
      let p : Perm ([] ++ (c.answered ++ [])) reqs =
        rw (pending-IsThrough s.workers k, none_of_length s.err_chan c.lost c.errors q.1) at
          c.each_once in
      (
        rw c.results (Perm.map (result_for fetch) (rw (append-nil c.answered) at p)),
        ap combined q.1,
      )

module _ (fetch : FetchRequest → Text × Option Error) where
  assigns :
      (before after : List Worker) (shared : Option Error) (req : FetchRequest) (body : Text)
      (o : Option Error)
      → fetch req ≡ (body, o)
      → Step fetch
          (record {
            shared_err = shared;
            workers = before ++ (fetching req ∷ after);
            res_chan = [];
            err_chan = [];
          })
          (record {
            shared_err = o;
            workers = before ++ (assigned req body ∷ after);
            res_chan = [];
            err_chan = [];
          })
  assigns before after shared req body o h =
      subst
        (λ (p : Text × Option Error).
          Step fetch
            (record {
              shared_err = shared;
              workers = before ++ (fetching req ∷ after);
              res_chan = [];
              err_chan = [];
            })
            (record {
              shared_err = p.1;
              workers = before ++ (assigned req p.0 ∷ after);
              res_chan = [];
              err_chan = [];
            }))
        h (assign before after shared [] [] req)

  -- Where one of two downloads ends with an error and the other does not, the workers can take
  -- their steps in an order in which FetchFeedFiles returns no error, and an empty file for the
  -- request that failed: the second assignment to `err` comes before the first worker reads it.
  pub Reaches-lost_error :
      (r q : FetchRequest) (e : Error) (body : Text)
      → fetch r ≡ ([], some e)
      → fetch q ≡ (body, none)
      → (s : Workers) × Reaches fetch (started (r ∷ q ∷ [])) s
        × (collected s ≡ (new_result r [] ∷ new_result q body ∷ [], none))
  unfolding collected started tested
  Reaches-lost_error r q e body hr hq = (
    _,
    onward _ _ _ (assigns [] (fetching q ∷ []) none r [] (some e) hr) (
        onward _ _ _ (assigns (assigned r [] ∷ []) [] (some e) q body none hq) (
          onward _ _ _ (test [] (assigned q body ∷ []) none [] [] r []) (
            onward _ _ _ (test (passed r [] ∷ []) [] none [] [] q body) (
              onward _ _ _ (send_result [] (passed q body ∷ []) none [] [] r []) (
                onward _ _ _ (send_result (through ∷ []) [] none (new_result r [] ∷ []) [] q body)
                  (here _)))))),
    refl,
  )
