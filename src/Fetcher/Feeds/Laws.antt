-- ===== src/Fetcher/Feeds/Laws.antt =====
-- What becomes of the requests of FetchFeedFiles, whatever the order of the steps.
use mathlib.Core.List.{
  Mem, Perm, perm_middle, mem-append_left, mem-append_right, mem-cons_self, map-append,
}
use mathlib.Core.List.Perm
use goval_dictionary_v.Prelude.{
  ◌≡◌, refl, sym, ap, ◌∙◌, Option, none, some, List, [], ◌∷◌, ◌++◌, map, collect, collect-append,
  append_assoc, append-nil, All, All-append, length, length-append, arith,
}
use goval_dictionary_v.Text.{Text}
use goval_dictionary_v.Outcome.{Error}
use goval_dictionary_v.Fetcher.Util.{FetchRequest, FetchResult}
use goval_dictionary_v.Fetcher.Feeds.{
  Worker, fetching, assigned, passed, refused, through, Workers, new_result, tested, Step, assign,
  test, send_result, send_error, Reaches, here, onward, started,
}

-- the request of a worker that has not sent its message yet
abbrev pub request_of : Worker → Option FetchRequest
request_of (fetching req) = some req
request_of (assigned req body) = some req
request_of (passed req body) = some req
request_of (refused req) = some req
request_of through = none

abbrev pub pending : List Worker → List FetchRequest
pending = collect request_of

from_last :
    {A : Type 0} (x : A) (pb pa ds ls : List A)
    → Perm ((pb ++ pa) ++ (ds ++ (x ∷ ls))) (x ∷ (pb ++ (pa ++ (ds ++ ls))))
from_last x pb pa ds ls =
    rw
      (
        append_assoc pb pa (ds ++ (x ∷ ls)),
        sym (append_assoc pa ds (x ∷ ls)),
        sym (append_assoc pb (pa ++ ds) (x ∷ ls)),
        sym (append_assoc pa ds ls),
        sym (append_assoc pb (pa ++ ds) ls),
      )
      (perm_middle (pb ++ (pa ++ ds)) ls)

from_first :
    {A : Type 0} (x : A) (pb pa ds ls : List A)
    → Perm ((pb ++ (x ∷ pa)) ++ (ds ++ ls)) (x ∷ (pb ++ (pa ++ (ds ++ ls))))
from_first x pb pa ds ls =
    rw (append_assoc pb (x ∷ pa) (ds ++ ls)) (perm_middle pb (pa ++ (ds ++ ls)))

-- one element is taken out of the first part of a list and put into the last
move_perm :
    {A : Type 0} (x : A) (pb pa ds ls : List A)
    → Perm ((pb ++ pa) ++ (ds ++ (x ∷ ls))) ((pb ++ (x ∷ pa)) ++ (ds ++ ls))
move_perm x pb pa ds ls =
    Perm.trans (from_last x pb pa ds ls) (Perm.symm (from_first x pb pa ds ls))

module _ (fetch : FetchRequest → Text × Option Error) where
  -- the file that a request is answered with
  abbrev pub result_for : FetchRequest → FetchResult
  result_for r = record {
    target = r.target;
    url = r.url;
    body = (fetch r).0;
    log_suppressed = r.log_suppressed;
  }

  -- An error is that of one of the requests, or nil.
  abbrev pub Raised : List FetchRequest → Option Error → Type 0
  Raised reqs none = Unit
  Raised reqs (some e) = (r : FetchRequest) × Mem r reqs × ((fetch r).1 ≡ some e)

  abbrev pub HasBody : Worker → Type 0
  HasBody (fetching req) = Unit
  HasBody (assigned req body) = body ≡ (fetch req).0
  HasBody (passed req body) = body ≡ (fetch req).0
  HasBody (refused req) = Unit
  HasBody through = Unit

  -- Each request is with its worker, or answered, or lost to an error, and is so once.
  pub record Consistent (reqs : List FetchRequest) (s : Workers) : Type 0 where
    pub answered : List FetchRequest
    pub lost : List FetchRequest
    pub each_once : Perm (pending s.workers ++ (answered ++ lost)) reqs
    pub results : s.res_chan ≡ map result_for answered
    pub errors : length s.err_chan ≡ length lost
    pub raised : All (Raised reqs) s.err_chan
    pub shared_raised : Raised reqs s.shared_err
    pub bodies : All HasBody s.workers

  Consistent_mem :
      (reqs : List FetchRequest) (req : FetchRequest) (pb pa rest : List FetchRequest)
      → Perm ((pb ++ (req ∷ pa)) ++ rest) reqs
      → Mem req reqs
  Consistent_mem reqs req pb pa rest p =
      (Perm.mem_iff p).0 (mem-append_left rest (mem-append_right pb mem-cons_self))

  -- one worker is replaced
  HasBody-replace :
      (before after : List Worker) (w w' : Worker)
      → (HasBody w → HasBody w')
      → All HasBody (before ++ (w ∷ after))
      → All HasBody (before ++ (w' ∷ after))
  HasBody-replace [] after w w' h m = (h m.0, m.1)
  HasBody-replace (v ∷ before) after w w' h m = (m.0, HasBody-replace before after w w' h m.1)

  HasBody-worker :
      (before after : List Worker) (w : Worker) → All HasBody (before ++ (w ∷ after)) → HasBody w
  HasBody-worker [] after w m = m.0
  HasBody-worker (v ∷ before) after w m = HasBody-worker before after w m.1

  collect-request :
      (w : Worker) (after : List Worker) (req : FetchRequest)
      → request_of w ≡ some req
      → pending (w ∷ after) ≡ req ∷ pending after
  collect-request (fetching q) after req e = cc
  collect-request (assigned q b) after req e = cc
  collect-request (passed q b) after req e = cc
  collect-request (refused q) after req e = cc
  collect-request through after req e = cc

  pending-append :
      (before after : List Worker) (w : Worker) (req : FetchRequest)
      → request_of w ≡ some req
      → pending (before ++ (w ∷ after)) ≡ pending before ++ (req ∷ pending after)
  pending-append before after w req e =
      collect-append request_of before (w ∷ after)
      ∙ ap (λ t. pending before ++ t) (collect-request w after req e)

  pending-through :
      (before after : List Worker)
      → pending (before ++ (through ∷ after)) ≡ pending before ++ pending after
  pending-through before after = collect-append request_of before (through ∷ after)

  Raised-new :
      (reqs : List FetchRequest) (req : FetchRequest) (o : Option Error)
      → Mem req reqs
      → (fetch req).1 ≡ o
      → Raised reqs o
  Raised-new reqs req none m e = tt
  Raised-new reqs req (some x) m e = (req, m, e)

  -- a step of the worker on one request, after which the request is still with it
  stays :
      (reqs : List FetchRequest) (before after : List Worker) (w w' : Worker)
      (shared shared' : Option Error) (res : List FetchResult) (errs : List (Option Error))
      (req : FetchRequest)
      → request_of w ≡ some req
      → request_of w' ≡ some req
      → (HasBody w → HasBody w')
      → (Mem req reqs → Raised reqs shared → Raised reqs shared')
      → Consistent reqs (record {
        shared_err = shared;
        workers = before ++ (w ∷ after);
        res_chan = res;
        err_chan = errs;
      })
      → Consistent reqs (record {
        shared_err = shared';
        workers = before ++ (w' ∷ after);
        res_chan = res;
        err_chan = errs;
      })
  stays reqs before after w w' shared shared' res errs req e e' body raise c =
      let p : Perm ((pending before ++ (req ∷ pending after)) ++ (c.answered ++ c.lost)) reqs =
        rw (pending-append before after w req e) at c.each_once in
      record {
        answered = c.answered;
        lost = c.lost;
        each_once = rw (pending-append before after w' req e') p;
        results = c.results;
        errors = c.errors;
        raised = c.raised;
        shared_raised =
            raise (Consistent_mem reqs req (pending before) (pending after) _ p) c.shared_raised;
        bodies = HasBody-replace before after w w' body c.bodies;
      }

  sends_result :
      (reqs : List FetchRequest) (before after : List Worker) (shared : Option Error)
      (res : List FetchResult) (errs : List (Option Error)) (req : FetchRequest) (body : Text)
      → Consistent reqs (record {
        shared_err = shared;
        workers = before ++ (passed req body ∷ after);
        res_chan = res;
        err_chan = errs;
      })
      → Consistent reqs (record {
        shared_err = shared;
        workers = before ++ (through ∷ after);
        res_chan = res ++ (new_result req body ∷ []);
        err_chan = errs;
      })
  sends_result reqs before after shared res errs req body c = record {
    answered = c.answered ++ (req ∷ []);
    lost = c.lost;
    each_once =
        rw (pending-through before after, append_assoc c.answered (req ∷ []) c.lost)
          (Perm.trans (move_perm req (pending before) (pending after) c.answered c.lost)
            (rw (pending-append before after (passed req body) req refl) at c.each_once));
    results =
        ap (λ t. t ++ (new_result req body ∷ [])) c.results
        ∙ ap (λ b. map result_for c.answered ++ (new_result req b ∷ []))
            (HasBody-worker before after (passed req body) c.bodies)
        ∙ sym (map-append result_for c.answered (req ∷ []));
    errors = c.errors;
    raised = c.raised;
    shared_raised = c.shared_raised;
    bodies = HasBody-replace before after (passed req body) through (λ h. tt) c.bodies;
  }

  sends_error :
      (reqs : List FetchRequest) (before after : List Worker) (shared : Option Error)
      (res : List FetchResult) (errs : List (Option Error)) (req : FetchRequest)
      → Consistent reqs (record {
        shared_err = shared;
        workers = before ++ (refused req ∷ after);
        res_chan = res;
        err_chan = errs;
      })
      → Consistent reqs (record {
        shared_err = shared;
        workers = before ++ (through ∷ after);
        res_chan = res;
        err_chan = errs ++ (shared ∷ []);
      })
  sends_error reqs before after shared res errs req c = record {
    answered = c.answered;
    lost = req ∷ c.lost;
    each_once = rw (pending-through before after) (
        Perm.trans (move_perm req (pending before) (pending after) c.answered c.lost)
          (rw (pending-append before after (refused req) req refl) at c.each_once));
    results = c.results;
    errors = omega (arith, length-append errs (shared ∷ []), c.errors);
    raised = All-append (Raised reqs) errs (shared ∷ []) c.raised (c.shared_raised, tt);
    shared_raised = c.shared_raised;
    bodies = HasBody-replace before after (refused req) through (λ h. tt) c.bodies;
  }

  tested-request :
      (shared : Option Error) (req : FetchRequest) (body : Text)
      → request_of (tested shared req body) ≡ some req
  unfolding tested
  tested-request none req body = refl
  tested-request (some e) req body = refl

  tested-HasBody :
      (shared : Option Error) (req : FetchRequest) (body : Text)
      → HasBody (assigned req body)
      → HasBody (tested shared req body)
  unfolding tested
  tested-HasBody none req body h = h
  tested-HasBody (some e) req body h = tt

  pub Step-Consistent :
      (reqs : List FetchRequest) (s t : Workers)
      → Step fetch s t
      → Consistent reqs s
      → Consistent reqs t
  Step-Consistent reqs s t (assign before after shared res errs req) c =
      stays reqs before after (fetching req) (assigned req (fetch req).0) shared (fetch req).1 res
        errs req refl refl (λ h. refl) (λ m h. Raised-new reqs req (fetch req).1 m refl) c
  Step-Consistent reqs s t (test before after shared res errs req body) c =
      stays reqs before after (assigned req body) (tested shared req body) shared shared res errs
        req refl (tested-request shared req body) (tested-HasBody shared req body) (λ m h. h) c
  Step-Consistent reqs s t (send_result before after shared res errs req body) c =
      sends_result reqs before after shared res errs req body c
  Step-Consistent reqs s t (send_error before after shared res errs req) c =
      sends_error reqs before after shared res errs req c

  started-pending : (reqs : List FetchRequest) → pending (map fetching reqs) ≡ reqs
  started-pending [] = refl
  started-pending (r ∷ reqs) = ap (λ t. r ∷ t) (started-pending reqs)

  started-bodies : (reqs : List FetchRequest) → All HasBody (map fetching reqs)
  started-bodies [] = tt
  started-bodies (r ∷ reqs) = (tt, started-bodies reqs)

  pub started-Consistent : (reqs : List FetchRequest) → Consistent reqs (started reqs)
  unfolding started
  started-Consistent reqs = record {
    answered = [];
    lost = [];
    each_once =
        rw (append-nil (pending (map fetching reqs)), started-pending reqs) (Perm.refl reqs);
    results = refl;
    errors = refl;
    raised = tt;
    shared_raised = tt;
    bodies = started-bodies reqs;
  }

  Reaches-Consistent_from :
      (reqs : List FetchRequest) (s t : Workers)
      → Reaches fetch s t
      → Consistent reqs s
      → Consistent reqs t
  Reaches-Consistent_from reqs s t (here _) c = c
  Reaches-Consistent_from reqs s t (onward _ u _ step more) c =
      Reaches-Consistent_from reqs u t more (Step-Consistent reqs s u step c)

  -- In every state that the workers of FetchFeedFiles reach, by whatever order of their steps, each
  -- request is with a worker that has not sent yet, or answered by one result in the channel, which
  -- is the file of this very request, or lost to one error in the other channel; and each of
  -- these errors is nil or one that the download of one of the requests ended with.
  pub Reaches-Consistent :
      (reqs : List FetchRequest) (s : Workers) → Reaches fetch (started reqs) s → Consistent reqs s
  Reaches-Consistent reqs s h =
      Reaches-Consistent_from reqs (started reqs) s h (started-Consistent reqs)
