-- ===== src/Devices/Management/Sound.antt =====
-- internal/ops/device_management.go and tailnet_api.go: what a handler does to the API and the cache.
use tailscale_derp.Base.{◌≡◌, ◌≢◌, none, some, ◌∷◌}
use tailscale_derp.Derpmap.{ApiConfig}
use tailscale_derp.Derpmap.Sync.{instance_at, api_instance}
use tailscale_derp.Devices.{DeviceStore}
use tailscale_derp.Devices.Management.Effects.{StatusOf, CacheFollows}
use tailscale_derp.Devices.Management.{Action, Call, Failure, Api, World, ask}
use tailscale_derp.Devices.Management.Handlers.{HttpRequest, Response, Decoders}
use tailscale_derp.Devices.Management.Bounds.{Checked}

module _ (api : Api) (dec : Decoders) (r : HttpRequest) (w : World) where
  abbrev pub call_for : Action → Call
  call_for a = record { instance_name = r.instance_name; device_id = r.device_id; action = a }

  -- A request has no effect; or one call for its device, of an instance that is configured, with an
  -- action that was checked, whose error gives the status; or one such call without error, and the
  -- change of the cache that follows from it.
  pub data Handled : Response → World → Type 0 where
    not_called : (resp : Response) → resp.status ≢ 200 → Handled resp w
    call_failed :
        (cfg : ApiConfig) (a : Action) (f : Failure) (resp : Response)
        → api_instance w.store.configs r.instance_name ≡ instance_at cfg
        → Checked api dec a
        → ask api (call_for a) a w.calls ≡ some f
        → StatusOf f resp.status
        → Handled resp (record w { calls = call_for a ∷ w.calls })
    call_made :
        (cfg : ApiConfig) (a : Action) (after : DeviceStore)
        → api_instance w.store.configs r.instance_name ≡ instance_at cfg
        → Checked api dec a
        → ask api (call_for a) a w.calls ≡ none
        → CacheFollows api (call_for a) a (api.now_text (call_for a ∷ w.calls)) w.store after
        → Handled
            (record { status = 200; message = "ok" })
            (record { store = after; calls = call_for a ∷ w.calls })

  Fine : Response × World → Type 0
  Fine x = Handled x.0 x.1
