-- ===== src/Routes/Tests/Rendering.antt =====
-- The routes of a small store, rendered.
use caddy_reverse_proxy.Common.{refl, [], ◌∷◌, All}
use caddy_reverse_proxy.Text.{codes}
use caddy_reverse_proxy.Routes.Calls.{run_all}
use caddy_reverse_proxy.Routes.Tests.{ran-IsWellFormed, script}
use caddy_reverse_proxy.Routes.Samples.{small_std, start}
use caddy_reverse_proxy.Caddy.Entries.{render_route}
use caddy_reverse_proxy.Caddy.Entries.Valid.{RendersOrMixes}
use caddy_reverse_proxy.Caddy.Entries.Stored.{store_routes-RendersOrMixes}
use caddy_reverse_proxy.Caddy.Samples.{small_auth, small_security}

store_routes-RendersOrMixes_example :
    All
      (λ route.
        RendersOrMixes route
          (render_route small_std route small_auth small_security (codes "10.0.0.0/8" ∷ [])))
      (run_all small_std script start).store.routes
store_routes-RendersOrMixes_example =
    store_routes-RendersOrMixes small_std (run_all small_std script start).store small_auth
      small_security (codes "10.0.0.0/8" ∷ []) ran-IsWellFormed refl refl
