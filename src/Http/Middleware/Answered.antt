-- ===== src/Http/Middleware/Answered.antt =====
-- What reaches the client, and what the log says of it.
use gigmile_test.Prelude.{ℕ, ◌≡◌, refl, ◌∙◌, Bool, true, false, List, [], ◌∷◌, ◌++◌, if◌then◌else◌}
use mathlib.Core.List.{append-nil, append_assoc}
use gigmile_test.Http.Middleware.{
  HttpRequest, Content, plain, WriterCall, write_header, write, LogEntry, processed, recovered,
  Exchange, HttpHandler, ResponseWriter, call, call_all, logger, recovery,
}

-- The status that net/http sends: that of the first call, which is 200 for a `Write`, and 200 where
-- there is no call.
abbrev pub sent_status : List WriterCall → ℕ
sent_status [] = 200
sent_status (write_header code ∷ cs) = code
sent_status (write content ∷ cs) = 200

abbrev pub sent_content : List WriterCall → List Content
sent_content [] = []
sent_content (write_header code ∷ cs) = sent_content cs
sent_content (write content ∷ cs) = content ∷ sent_content cs

-- The last status that a handler asks for.
abbrev pub last_status : ℕ → List WriterCall → ℕ
last_status code [] = code
last_status code (write_header code' ∷ cs) = last_status code' cs
last_status code (write content ∷ cs) = last_status code cs

call_all-passed :
    (cs : List WriterCall) (w : ResponseWriter) → (call_all cs w).passed ≡ w.passed ++ cs
unfolding call_all call
call_all-passed [] w = rw append-nil refl
call_all-passed (write_header code ∷ cs) w =
    call_all-passed cs _ ∙ append_assoc w.passed (write_header code ∷ []) cs
call_all-passed (write content ∷ cs) w =
    call_all-passed cs _ ∙ append_assoc w.passed (write content ∷ []) cs

call_all-status :
    (cs : List WriterCall) (w : ResponseWriter)
    → (call_all cs w).status_code ≡ last_status w.status_code cs
unfolding call_all call
call_all-status [] w = refl
call_all-status (write_header code ∷ cs) w = call_all-status cs _
call_all-status (write content ∷ cs) w = call_all-status cs _

module _ {S : Type 0} where
  -- What the two layers make of a handler's exchange.
  abbrev pub answer_of : HttpRequest → Exchange S → Exchange S
  answer_of r x =
      if x.panicked
      then record x {
        calls = x.calls ++ (write_header 500 ∷ (write (plain "Internal Server Error") ∷ []));
        panicked = false;
        log = x.log ++ recovered r.path ∷ [];
      }
      else record x { log = x.log ++ processed r.method r.path (last_status 200 x.calls) ∷ [] }

  answered :
      (r : HttpRequest) (s : S) (calls : List WriterCall) (panicked : Bool) (log : List LogEntry)
      (t : S)
      → let x : Exchange S = record { calls = calls; panicked = panicked; log = log; state = t } in
        recovery (logger (λ _ _. x)) r s ≡ answer_of r x
  unfolding recovery logger
  answered r s calls true log t = rw (call_all-passed calls) refl
  answered r s calls false log t = rw (call_all-passed calls, call_all-status calls) refl

  -- The recovery around the logger passes on the calls of any handler. Where the handler returns,
  -- the log gets one entry, with the last status that the handler asked for; where it panics, the
  -- log gets an entry of the panic alone, and a 500 with its text is written after what the
  -- handler had written. No panic gets out.
  pub recovery-logger :
      (next : HttpHandler S) (r : HttpRequest) (s : S)
      → recovery (logger next) r s ≡ answer_of r (next r s)
  unfolding recovery logger
  recovery-logger next r s =
      answered r s (next r s).calls (next r s).panicked (next r s).log (next r s).state
