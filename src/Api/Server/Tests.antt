-- ===== src/Api/Server/Tests.antt =====
-- Requests through the routes.
use jobsys.Base.{ℕ, ◌≡◌, refl, ◌⊎◌, String, Bool, true, false, [], ◌∷◌, Result, ok, text_eq}
use jobsys.Store.Histories.{IsValid}
use jobsys.Worker.Env.{fine}
use jobsys.Api.Tests.{plain, stored_world, no_broker, hourly_report}
use jobsys.Api.Jobs.{CreateJobRequest}
use jobsys.Api.Server.{
  Request, Calls, serve_request, route, get_route, post_route, pause_at, web, stream_logs_at,
  method_not_allowed,
}
use jobsys.Api.Server.Safety.{serve_request-IsValid}

abbrev pub decoded : ℕ → String → Result String (CreateJobRequest × Bool)
decoded limit body = ok (hourly_report, false)

abbrev pub trigger_it : Request
trigger_it = record {
  method = "POST";
  path = "jobs" ∷ "1" ∷ "run" ∷ [];
  parameter = λ key. "";
  body = "";
}

abbrev pub some_calls : Calls
some_calls = record {
  first = fine;
  second = fine;
  now = 200;
  row_id = 7;
  row_time = 200;
  run_calls = no_broker;
  polls = [];
}

routes :
    (route "POST" ("jobs" ∷ "1" ∷ "pause" ∷ []) ≡ pause_at "1")
    × ((route "GET" ("runs" ∷ "7" ∷ "logs" ∷ "stream" ∷ []) ≡ stream_logs_at "7")
        × ((route "HEAD" ("app.js" ∷ []) ≡ web)
            × (route "DELETE" ("jobs" ∷ "1" ∷ []) ≡ method_not_allowed)))
unfolding route get_route post_route
routes = (refl, (refl, (refl, refl)))

pub stored-IsValid : IsValid stored_world.db
stored-IsValid = record { keyed = tt; occurs_once = tt; rows_shaped = tt }

serve_request-IsValid_example :
    IsValid (serve_request plain decoded trigger_it some_calls stored_world).0.db
    × (((serve_request plain decoded trigger_it some_calls stored_world).0 ≡ stored_world)
        ⊎ (text_eq "POST" "POST" ≡ true))
serve_request-IsValid_example =
    serve_request-IsValid plain decoded trigger_it some_calls stored_world stored-IsValid
