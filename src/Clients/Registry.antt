-- ===== src/Clients/Registry.antt =====
-- src/lib/dispatchers/registry.ts.
use helpan_ai.Prelude.{ℕ, String, Bool, ◌||◌, ◌==◌, if◌then◌else◌}
use helpan_ai.World.{World}
use helpan_ai.Actions.Types.{DispatchInput, DispatchOutcome, rejected}
use helpan_ai.Clients.Http.{HttpDeps}
use helpan_ai.Clients.Dispatcher.{HttpDispatcherConfig, http_dispatch, unconfigured_dispatch}

-- The members of `OutboundRailConfig`.
pub record OutboundRailConfig : Type 0 where
  pub base_url : String
  pub dispatch_path : String
  pub app_id : String
  pub hmac_secret : String
  pub timestamp_header : String

-- The timeout is left out: whether a call was aborted is the answer's.
pub record OutboundDispatch : Type 0 where
  pub kipkiren_pay : OutboundRailConfig
  pub todoku : OutboundRailConfig
  pub identiti : OutboundRailConfig
  pub klokd : OutboundRailConfig

abbrev pub is_unconfigured : OutboundRailConfig → Bool
is_unconfigured per_rail = per_rail.base_url == "" || per_rail.hmac_secret == ""

abbrev pub http_config : String → OutboundRailConfig → HttpDispatcherConfig
http_config rail per_rail = record {
  rail = rail;
  base_url = per_rail.base_url;
  dispatch_path = per_rail.dispatch_path;
  app_id = per_rail.app_id;
  hmac_secret = per_rail.hmac_secret;
  timestamp_header = per_rail.timestamp_header;
}

module _ (w : World) (deps : HttpDeps) (sent_at latency : ℕ) where
  unfoldable pub pick_dispatcher : String → OutboundRailConfig → DispatchInput → DispatchOutcome
  unfolding http_dispatch unconfigured_dispatch
  pick_dispatcher rail per_rail input =
      if is_unconfigured per_rail
      then unconfigured_dispatch rail input
      else http_dispatch w deps (http_config rail per_rail) sent_at latency input

  -- The dispatcher of the input's rail; without one, the call on `undefined` throws.
  unfoldable pub production_dispatch : OutboundDispatch → DispatchInput → DispatchOutcome
  unfolding pick_dispatcher
  production_dispatch config input =
      if input.target_rail == "kipkiren_pay"
      then pick_dispatcher "kipkiren_pay" config.kipkiren_pay input
      else if input.target_rail == "todoku"
      then pick_dispatcher "todoku" config.todoku input
      else if input.target_rail == "identiti"
      then pick_dispatcher "identiti" config.identiti input
      else if input.target_rail == "klokd"
      then pick_dispatcher "klokd" config.klokd input
      else rejected
