-- ===== src/Server/Http/Router/Paths.antt =====
-- The path of the request that a route serves.
use sponsor.Common.{arith, ◌≡◌, Bool, true, some, none, Option, if◌then◌else◌}
use sponsor.Common.Text.{Text, lit}
use sponsor.Common.Text.Compare.{text_eq_iff}
use sponsor.Server.Http.Router.{
  Route, healthz_route, sh_route, ps1_route, fund_route, capability_route, route_of,
}

-- The tests of `route_of`, by what each of them says.
abbrev routed : Bool → Bool → Bool → Bool → Bool → Option Route
routed a b c d e =
    if a
    then some healthz_route
    else if b
    then some sh_route
    else if c
    then some ps1_route
    else if d
    then some fund_route
    else if e
    then some capability_route
    else none

routed-fund : (a b c d e : Bool) → routed a b c d e ≡ some fund_route → d ≡ true
routed-fund a b c d e h = ground arith

routed-capability : (a b c d e : Bool) → routed a b c d e ≡ some capability_route → e ≡ true
routed-capability a b c d e h = ground arith

pub path_of_fund : (path : Text) → route_of path ≡ some fund_route → path ≡ lit "/fund"
unfolding route_of
path_of_fund path h = (text_eq_iff path (lit "/fund")).0 (routed-fund _ _ _ _ _ h)

pub path_of_capability :
    (path : Text) → route_of path ≡ some capability_route → path ≡ lit "/capability"
unfolding route_of
path_of_capability path h = (text_eq_iff path (lit "/capability")).0 (routed-capability _ _ _ _ _ h)
