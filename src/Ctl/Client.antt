-- ===== src/Ctl/Client.antt =====
-- `do` and apiError of cmd/jobctl/main.go: what the client makes of an answer. Its JSON is read back
-- as the value that was written.
use jobsys.Base.{
  ℕ, ◌+◌, String, List, [], Result, ok, err, ◌<>◌, text_eq, leb, if◌then◌else◌, decimal,
}
use jobsys.Base.Int.{ℤ, pos, negsuc}
use jobsys.Store.Models.{LogLine}
use jobsys.Api.{Response, Body, logs, failure}

-- The field `error` of the body, or "".
abbrev pub error_field : Body → String
error_field (failure e) = e
error_field _ = ""

-- `request` is the method and the path, `status_line` the text of a status code.
module _ (status_line : ℕ → String) where
  unfoldable pub api_error : String → Response → String
  api_error request r =
      let e = error_field r.body in
      request <> (": " <> (if text_eq e "" then status_line r.status else e))

  -- The answer, or the error of sending the request.
  unfoldable pub do_request : String → Result String Response → Result String Body
  do_request request (err e) = err e
  do_request request (ok r) = if leb 400 r.status then err (api_error request r) else ok r.body

-- `%d` of an int64.
abbrev pub decimalℤ : ℤ → String
decimalℤ (pos n) = decimal n
decimalℤ (negsuc n) = "-" <> decimal (n + 1)

-- The fields `lines` and `next_seq`, which stay zero where the body has none.
abbrev pub page_of : Body → List LogLine × ℤ
page_of (logs p) = (p.lines, p.next_seq)
page_of _ = ([], pos 0)
