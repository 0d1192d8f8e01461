-- ===== src/Http/Middleware.antt =====
-- internal/interface/http/middleware/middleware.go: the two layers that the repository puts around a
-- handler. A handler is what it calls on its http.ResponseWriter, in order, and whether it panics.
pub mod Answered
use gigmile_test.Prelude.{ℕ, String, Bool, true, false, List, [], ◌∷◌, ◌++◌, if◌then◌else◌}
use gigmile_test.Result.{Result}
use gigmile_test.Http.Dto.{PaymentRequest}
use gigmile_test.Http.Handler.{Body}

-- *http.Request: the method, the path, the parameters of the query, and what the JSON decoder makes
-- of the body.
pub record HttpRequest : Type 0 where
  pub method : String
  pub path : String
  pub query : String → String
  pub decoded : Result PaymentRequest

-- What is written to a reply: JSON, or the text of `http.Error`.
pub data Content : Type 0 where
  json : Body → Content
  plain : String → Content

-- A call on an http.ResponseWriter.
pub data WriterCall : Type 0 where
  write_header : ℕ → WriterCall
  write : Content → WriterCall

pub data LogEntry : Type 0 where
  -- "request processed", with method, path and status
  processed : String → String → ℕ → LogEntry
  -- "panic recovered", with the path
  recovered : String → LogEntry

-- What a handler has done with a request, on a state of type `S`.
pub record Exchange (S : Type 0) : Type 0 where
  pub calls : List WriterCall
  pub panicked : Bool
  pub log : List LogEntry
  pub state : S

abbrev pub HttpHandler : Type 0 → Type 0
HttpHandler S = HttpRequest → S → Exchange S

-- `responseWriter`: the code that it has noted, and the calls that it has passed on
pub record ResponseWriter : Type 0 where
  pub status_code : ℕ
  pub passed : List WriterCall

-- `WriteHeader` notes the code and passes the call on; `Write` is that of the writer inside.
unfoldable pub call : WriterCall → ResponseWriter → ResponseWriter
call (write_header code) w = record {
  status_code = code;
  passed = w.passed ++ write_header code ∷ [];
}
call (write content) w = record w { passed = w.passed ++ write content ∷ [] }

unfoldable pub call_all : List WriterCall → ResponseWriter → ResponseWriter
call_all [] w = w
call_all (c ∷ cs) w = call_all cs (call c w)

module _ {S : Type 0} where
  -- A panic goes through, past the entry.
  unfoldable pub logger : HttpHandler S → HttpHandler S
  unfolding call call_all
  logger next r s =
      let x = next r s in
      let wrapped = call_all x.calls (record { status_code = 200; passed = [] }) in
      let passed_on = record x { calls = wrapped.passed } in
      if x.panicked
      then passed_on
      else record passed_on { log = x.log ++ processed r.method r.path wrapped.status_code ∷ [] }

  -- `http.Error` writes the header and the text.
  unfoldable pub recovery : HttpHandler S → HttpHandler S
  recovery next r s =
      let x = next r s in
      if x.panicked
      then record x {
        calls = x.calls ++ (write_header 500 ∷ (write (plain "Internal Server Error") ∷ []));
        panicked = false;
        log = x.log ++ recovered r.path ∷ [];
      }
      else x
