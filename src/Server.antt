-- ===== src/Server.antt =====
-- The handlers of server/server.go, without the log. A response is its status and the value that is
-- encoded as its body.
use goval_dictionary_v.Prelude.{ℕ, Option, none, some, List}
use goval_dictionary_v.Text.{Text}
use goval_dictionary_v.Outcome.{Outcome, ok, err, panic}
use goval_dictionary_v.Models.{Time, Definition}
use goval_dictionary_v.Commands.{Database}

-- A body of null where the value is none.
pub record JsonResponse (A : Type 0) : Type 0 where
  pub status : ℕ
  pub body : Option A

abbrev pub status_ok : ℕ
status_ok = 200

abbrev pub bad_request : ℕ
bad_request = 400

abbrev pub internal_server_error : ℕ
internal_server_error = 500

-- `return c.JSON(http.StatusOK, x)` after a call whose error is only logged: x is then the value
-- that the call returned beside the error. A panic goes to the middleware.
unfoldable pub reply_ok : {A : Type 0} → Option A → Outcome A → Outcome (JsonResponse A)
reply_ok beside (ok a) = ok (record { status = status_ok; body = some a })
reply_ok beside (err e) = ok (record { status = status_ok; body = beside })
reply_ok beside panic = panic

module _ (database : Database) (to_lower : Text → Text) where
  unfoldable pub handle_get_by_pack_name :
      (Text → Option Text)
      → Text
      → Text
      → Text
      → Text
      → database.State
      → Outcome (JsonResponse (List Definition))
  handle_get_by_pack_name query_unescape family release pack arch s = elim (query_unescape pack) [
    | none ↦ ok (record { status = bad_request; body = none })
    | some p ↦ reply_ok none (database.query_by_pack_name (to_lower family) release p arch s)
  ]

  unfoldable pub handle_get_by_cve_id :
      Text → Text → Text → Text → database.State → Outcome (JsonResponse (List Definition))
  handle_get_by_cve_id family release cve_id arch s =
      reply_ok none (database.query_by_cve_id (to_lower family) release cve_id arch s)

  unfoldable pub count_oval_defs : Text → Text → database.State → Outcome (JsonResponse ℕ)
  count_oval_defs family release s =
      reply_ok (some 0) (database.query_count (to_lower family) release s)

  unfoldable pub handle_get_last_modified :
      Text → Text → database.State → Outcome (JsonResponse Time)
  handle_get_last_modified family release s =
      elim (database.query_last_modified (to_lower family) release s) [
        | ok t ↦ ok (record { status = status_ok; body = some t })
        | err e ↦ ok (record { status = internal_server_error; body = none })
        | panic ↦ panic
      ]
