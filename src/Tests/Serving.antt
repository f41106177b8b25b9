-- ===== src/Tests/Serving.antt =====
-- apigee-sim on the small platform, alone and beside ewp-sim.
use mirror_agent.Base.{some, inl, inr, ◌≡◌, Bytes, codes, refl}
use mirror_agent.Go.Strings.{equal}
use mirror_agent.Sims.Http.{Incoming, Registered}
use mirror_agent.Sims.Ewp
use mirror_agent.Sims.Ewp.Handlers
use mirror_agent.Sims.Apigee
use mirror_agent.Sims.Agree.{status_of, serve-status}
use mirror_agent.Tests.Simulating.{small, mirrored}

-- A method that no server allows.
abbrev deletion : Incoming
deletion = mirrored (codes "DELETE") (codes "/api/v1/products")

picks-products : small.pattern_for Apigee.patterns deletion.path ≡ some (codes "/api/v1/products")
unfolding equal
picks-products = refl

picks_the_same :
    small.pattern_for Handlers.patterns deletion.path
    ≡ small.pattern_for Apigee.patterns deletion.path
unfolding equal
picks_the_same = refl

picks-Registered :
    (pattern : Bytes)
    → small.pattern_for Apigee.patterns deletion.path ≡ some pattern
    → Registered pattern Apigee.patterns
picks-Registered pattern e = inr (inl (cc (picks-products, e)))

serve-status_example :
    status_of (Handlers.serve small (Ewp.started small) deletion).1
    ≡ status_of (Apigee.serve small Apigee.started deletion).1
serve-status_example =
    serve-status small (Ewp.started small) Apigee.started deletion picks_the_same picks-Registered
