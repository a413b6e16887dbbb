-- ===== src/Fetcher/Feeds.antt =====
-- FetchFeedFiles of fetcher/util/fetcher.go: one worker for each request, all of which assign to
-- and read the one variable `err`, the function's result. A step is one assignment, one reading or
-- one send; the steps of the workers interleave in any order. Which worker takes which request is
-- of no account, so the i-th takes the i-th. Not modelled are the timeout, and that an assignment
-- of an interface may be seen half done.
pub mod Laws
pub mod Outcomes
use goval_dictionary_v.Prelude.{
  ℕ, ◌/◌, Bool, true, false, Option, none, some, List, [], ◌∷◌, ◌++◌, map, length, if◌then◌else◌,
}
use goval_dictionary_v.Text.{Text}
use goval_dictionary_v.Outcome.{Error, Outcome, ok, err, panic}
use goval_dictionary_v.Fetcher.Util.{
  FetchRequest, FetchResult, Web, fetch_file_concurrently, fetch_file_with_ua,
}

pub data Worker : Type 0 where
  -- before the assignment to `body` and `err`, and after it
  fetching : FetchRequest → Worker
  assigned : FetchRequest → Text → Worker
  -- after the test of `err`: before the send of the result, and before that of the error
  passed : FetchRequest → Text → Worker
  refused : FetchRequest → Worker
  -- after the send
  through : Worker

-- The variable that the workers share, the workers, and the two channels, which hold what was sent
-- in the order of the sends. An error that is sent is read from the variable again, and may be nil.
pub record Workers : Type 0 where
  pub shared_err : Option Error
  pub workers : List Worker
  pub res_chan : List FetchResult
  pub err_chan : List (Option Error)

-- The two results of a call: without an error the file, and else nil and the error.
abbrev pub go_results : Outcome Text → Text × Option Error
go_results (ok body) = (body, none)
go_results (err e) = ([], some e)
go_results panic = ([], none)

-- The branch in the worker: by the request, with the number of connections for each. Neither of
-- the two functions panics.
unfoldable pub fetch_one : Web → Text → ℕ → FetchRequest → Text × Option Error
fetch_one web http_proxy n req =
    if req.concurrently
    then go_results (fetch_file_concurrently web http_proxy req (20 / n))
    else go_results (fetch_file_with_ua web http_proxy req)

abbrev pub new_result : FetchRequest → Text → FetchResult
new_result req body = record {
  target = req.target;
  url = req.url;
  body = body;
  log_suppressed = req.log_suppressed;
}

-- `if err != nil`, on the shared variable
unfoldable pub tested : Option Error → FetchRequest → Text → Worker
tested none req body = passed req body
tested (some e) req body = refused req

module _ (fetch : FetchRequest → Text × Option Error) where
  -- one step of one of the workers
  pub data Step : Workers → Workers → Type 0 where
    assign :
        (before after : List Worker) (shared : Option Error) (res : List FetchResult)
        (errs : List (Option Error)) (req : FetchRequest)
        → Step
            (record {
              shared_err = shared;
              workers = before ++ (fetching req ∷ after);
              res_chan = res;
              err_chan = errs;
            })
            (record {
              shared_err = (fetch req).1;
              workers = before ++ (assigned req (fetch req).0 ∷ after);
              res_chan = res;
              err_chan = errs;
            })
    test :
        (before after : List Worker) (shared : Option Error) (res : List FetchResult)
        (errs : List (Option Error)) (req : FetchRequest) (body : Text)
        → Step
            (record {
              shared_err = shared;
              workers = before ++ (assigned req body ∷ after);
              res_chan = res;
              err_chan = errs;
            })
            (record {
              shared_err = shared;
              workers = before ++ (tested shared req body ∷ after);
              res_chan = res;
              err_chan = errs;
            })
    send_result :
        (before after : List Worker) (shared : Option Error) (res : List FetchResult)
        (errs : List (Option Error)) (req : FetchRequest) (body : Text)
        → Step
            (record {
              shared_err = shared;
              workers = before ++ (passed req body ∷ after);
              res_chan = res;
              err_chan = errs;
            })
            (record {
              shared_err = shared;
              workers = before ++ (through ∷ after);
              res_chan = res ++ (new_result req body ∷ []);
              err_chan = errs;
            })
    send_error :
        (before after : List Worker) (shared : Option Error) (res : List FetchResult)
        (errs : List (Option Error)) (req : FetchRequest)
        → Step
            (record {
              shared_err = shared;
              workers = before ++ (refused req ∷ after);
              res_chan = res;
              err_chan = errs;
            })
            (record {
              shared_err = shared;
              workers = before ++ (through ∷ after);
              res_chan = res;
              err_chan = errs ++ (shared ∷ []);
            })

  pub data Reaches : Workers → Workers → Type 0 where
    here : (s : Workers) → Reaches s s
    onward : (s t u : Workers) → Step s t → Reaches t u → Reaches s u

unfoldable pub started : List FetchRequest → Workers
started reqs = record {
  shared_err = none;
  workers = map fetching reqs;
  res_chan = [];
  err_chan = [];
}

-- `if 0 < len(errs)`, on the errors received
abbrev pub combined : List (Option Error) → Option (List (Option Error))
combined [] = none
combined (e ∷ errs) = some (e ∷ errs)

-- What the function returns once it has received as many messages as there are requests: the
-- results in the order of their arrival, and the errors that make up the error, if there are any.
unfoldable pub collected : Workers → List FetchResult × Option (List (Option Error))
collected s = (s.res_chan, combined s.err_chan)
